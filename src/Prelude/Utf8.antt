-- ===== src/Prelude/Utf8.antt =====
-- Texts and their UTF-8 bytes: `as_bytes`, `String::from_utf8` and `String::from_utf8_lossy`.
use Prim.Native.Nat.{ℕ, zero, suc, ◌+◌, ◌-◌, ◌*◌, ◌/◌, ◌%◌, ◌≤◌, ◌<◌}
use mathlib.Core.Path.{◌≡◌, refl}
use mathlib.Core.Logic.{◌⊎◌}
use mathlib.Core.Bool.{◌&&◌}
use mathlib.Core.List.{List, [], ◌∷◌, ◌++◌}
use mathlib.Core.Option.{Option, none, some}
use native.Mathlib.Omega.{arith}
use network_client.Prelude.Tests.{ltb, leb, ◌==◌, if◌then◌else◌}
use network_client.Prelude.Texts.{Text, text_eq, text_eq_refl}

encode_char : ℕ → List ℕ
encode_char c =
    if ltb c 0x80
    then c ∷ []
    else if ltb c 0x800
    then (0xc0 + c / 64) ∷ (0x80 + c % 64) ∷ []
    else if ltb c 0x10000
    then (0xe0 + c / 4096) ∷ (0x80 + c / 64 % 64) ∷ (0x80 + c % 64) ∷ []
    else (0xf0 + c / 262144) ∷ (0x80 + c / 4096 % 64) ∷ (0x80 + c / 64 % 64) ∷ (0x80 + c % 64) ∷ []

-- `as_bytes`
unfoldable pub as_bytes : Text → List ℕ
unfolding encode_char
as_bytes [] = []
as_bytes (c ∷ s) = encode_char c ++ as_bytes s

-- What the decoder is in: how many bytes the character still needs, the range of the next one, and
-- the bits that are read.
pub data Mode : Type 0 where
  fresh : Mode
  inside : ℕ → ℕ → ℕ → ℕ → Mode

-- What the bytes of one step give: a character, a replacement, or both a replacement and a new start.
abbrev replacement : ℕ
replacement = 0xfffd

lead : ℕ → Text × Mode
lead b =
    if ltb b 0x80
    then (b ∷ [], fresh)
    else if ltb b 0xc2
    then (replacement ∷ [], fresh)
    else if ltb b 0xe0
    then ([], inside 0 0x80 0xbf (b - 0xc0))
    else if b == 0xe0
    then ([], inside 1 0xa0 0xbf 0)
    else if b == 0xed
    then ([], inside 1 0x80 0x9f 13)
    else if ltb b 0xf0
    then ([], inside 1 0x80 0xbf (b - 0xe0))
    else if b == 0xf0
    then ([], inside 2 0x90 0xbf 0)
    else if ltb b 0xf4
    then ([], inside 2 0x80 0xbf (b - 0xf0))
    else if b == 0xf4
    then ([], inside 2 0x80 0x8f 4)
    else (replacement ∷ [], fresh)

cont : ℕ → ℕ → Text × Mode
cont zero bits = (bits ∷ [], fresh)
cont (suc more) bits = ([], inside more 0x80 0xbf bits)

replaced : Text × Mode → Text × Mode
replaced (s, m) = (replacement ∷ s, m)

step : Mode → ℕ → Text × Mode
unfolding lead cont replaced
step fresh b = lead b
step (inside more low high bits) b =
    if leb low b && leb b high then cont more (bits * 64 + (b - 0x80)) else replaced (lead b)

decode_from : Mode → List ℕ → Text
unfolding step
decode_from fresh [] = []
decode_from (inside _ _ _ _) [] = replacement ∷ []
decode_from m (b ∷ bytes) = (step m b).0 ++ decode_from (step m b).1 bytes

-- `String::from_utf8_lossy`: one replacement for each longest start of a character.
unfoldable pub from_utf8_lossy : List ℕ → Text
unfolding decode_from
from_utf8_lossy = decode_from fresh

-- A `char`.
abbrev pub IsScalar : ℕ → Type 0
IsScalar c = (c < 0xd800) ⊎ ((0xe000 ≤ c) × (c < 0x110000))

abbrev pub IsString : Text → Type 0
IsString [] = Unit
IsString (c ∷ s) = IsScalar c × IsString s

lead_two : (q : ℕ) → 2 ≤ q → q < 32 → lead (0xc0 + q) ≡ ([], inside 0 0x80 0xbf q)
unfolding lead
lead_two q lo hi = ground arith

lead_three :
    (q low high : ℕ)
    → q < 16
    → low ≡ (if q == 0 then 0xa0 else 0x80)
    → high ≡ (if q == 13 then 0x9f else 0xbf)
    → lead (0xe0 + q) ≡ ([], inside 1 low high q)
unfolding lead
lead_three q low high hi el eh = ground arith

lead_four :
    (q low high : ℕ)
    → q < 5
    → low ≡ (if q == 0 then 0x90 else 0x80)
    → high ≡ (if q == 4 then 0x8f else 0xbf)
    → lead (0xf0 + q) ≡ ([], inside 2 low high q)
unfolding lead
lead_four q low high hi el eh = ground arith

cont-step :
    (more low high bits b : ℕ)
    → low ≤ b
    → b ≤ high
    → step (inside more low high bits) b ≡ cont more (bits * 64 + (b - 0x80))
unfolding step
cont-step more low high bits b hl hh = ground arith

decode_two :
    (c : ℕ) (r : List ℕ)
    → 0x80 ≤ c
    → c < 0x800
    → decode_from fresh ((0xc0 + c / 64) ∷ (0x80 + c % 64) ∷ r) ≡ c ∷ decode_from fresh r
unfolding decode_from step cont
decode_two c r lo hi = ground (
  arith,
  lead_two (c / 64) (omega arith) (omega arith),
  cont-step 0 0x80 0xbf (c / 64) (0x80 + c % 64) (omega arith) (omega arith),
)

decode_three :
    (c : ℕ) (r : List ℕ)
    → 0x800 ≤ c
    → c < 0x10000
    → IsScalar c
    → decode_from fresh ((0xe0 + c / 4096) ∷ (0x80 + c / 64 % 64) ∷ (0x80 + c % 64) ∷ r)
      ≡ c ∷ decode_from fresh r
unfolding decode_from step cont
decode_three c r lo hi ok =
    let low : ℕ = if c / 4096 == 0 then 0xa0 else 0x80 in
    let high : ℕ = if c / 4096 == 13 then 0x9f else 0xbf in
    let second =
      cont-step 1 low high (c / 4096) (0x80 + c / 64 % 64) (ground arith) (ground arith) in
    let third = cont-step 0 0x80 0xbf (c / 64) (0x80 + c % 64) (omega arith) (omega arith) in
    let bits : c / 4096 * 64 + (0x80 + c / 64 % 64 - 0x80) ≡ c / 64 = omega arith in
    ground (arith, lead_three (c / 4096) low high (omega arith) refl refl, second, third, bits)

decode_four :
    (c : ℕ) (r : List ℕ)
    → 0x10000 ≤ c
    → IsScalar c
    → decode_from fresh
        ((0xf0 + c / 262144) ∷ (0x80 + c / 4096 % 64) ∷ (0x80 + c / 64 % 64) ∷ (0x80 + c % 64) ∷ r)
      ≡ c ∷ decode_from fresh r
unfolding decode_from step cont
decode_four c r lo ok =
    let low : ℕ = if c / 262144 == 0 then 0x90 else 0x80 in
    let high : ℕ = if c / 262144 == 4 then 0x8f else 0xbf in
    let second =
      cont-step 2 low high (c / 262144) (0x80 + c / 4096 % 64) (ground arith) (ground arith) in
    let third = cont-step 1 0x80 0xbf (c / 4096) (0x80 + c / 64 % 64) (omega arith) (omega arith) in
    let fourth = cont-step 0 0x80 0xbf (c / 64) (0x80 + c % 64) (omega arith) (omega arith) in
    let bits : c / 262144 * 64 + (0x80 + c / 4096 % 64 - 0x80) ≡ c / 4096 = omega arith in
    let more_bits : c / 4096 * 64 + (0x80 + c / 64 % 64 - 0x80) ≡ c / 64 = omega arith in
    ground (
      arith,
      lead_four (c / 262144) low high (ground arith) refl refl,
      second,
      third,
      fourth,
      bits,
      more_bits,
    )

decode_char :
    (c : ℕ) (r : List ℕ)
    → IsScalar c
    → decode_from fresh (encode_char c ++ r) ≡ c ∷ decode_from fresh r
unfolding encode_char decode_from step lead
decode_char c r h = ground (arith, decode_two c r, decode_three c r, decode_four c r)

-- The bytes of a text give it back.
pub from_utf8_lossy-as_bytes : (s : Text) → IsString s → from_utf8_lossy (as_bytes s) ≡ s
unfolding from_utf8_lossy as_bytes decode_from
from_utf8_lossy-as_bytes [] h = refl
from_utf8_lossy-as_bytes (c ∷ s) h =
    ground (arith, decode_char c (as_bytes s) h.0, from_utf8_lossy-as_bytes s h.1)

-- `String::from_utf8`: the bytes of a text, and no others. A replacement in the lossy text of other
-- bytes does not encode to what it stands for.
unfoldable pub from_utf8 : List ℕ → Option Text
unfolding from_utf8_lossy as_bytes text_eq
from_utf8 bytes =
    let s = from_utf8_lossy bytes in if text_eq (as_bytes s) bytes then some s else none

pub from_utf8-as_bytes : (s : Text) → IsString s → from_utf8 (as_bytes s) ≡ some s
unfolding from_utf8
from_utf8-as_bytes s h = rw (from_utf8_lossy-as_bytes s h, text_eq_refl (as_bytes s)) refl
