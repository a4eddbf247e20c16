-- ===== src/Prelude/Decimal.antt =====
-- `format!("{}", n)` of an unsigned number.
use Prim.Native.Nat.{ℕ, zero, suc, ◌+◌, ◌*◌, ◌-◌, ◌/◌, ◌%◌, ◌≤◌, ◌<◌}
use mathlib.Core.Path.{◌≡◌, refl, sym, ap, ◌∙◌}
use mathlib.Core.Logic.{inl, inr}
use mathlib.Core.Bool.{false, ◌&&◌}
use mathlib.Core.Option.{Option, none, some}
use mathlib.Core.List.{[], ◌∷◌, ◌++◌, append_assoc}
use native.Mathlib.Omega.{arith}
use network_client.Prelude.Tests.{ltb, leb, ◌==◌, ltb→lt, if◌then◌else◌, Bool-cases}
use network_client.Prelude.Texts.{Text, is_empty}

-- Each round writes one digit in front of `acc`, so `n + 1` rounds are enough.
digits : ℕ → ℕ → Text → Text
digits zero n acc = acc
digits (suc fuel) n acc =
    let rest = digits fuel (n / 10) ((b'0' + n % 10) ∷ acc) in
    if ltb n 10 then (b'0' + n) ∷ acc else rest

unfoldable pub decimal : ℕ → Text
unfolding digits
decimal n = digits (suc n) n []

-- The rounds write their digits in front of what is there.
digits-append : (fuel n : ℕ) (acc : Text) → digits fuel n acc ≡ digits fuel n [] ++ acc
unfolding digits
digits-append zero n acc = refl
digits-append (suc fuel) n acc = elim (Bool-cases (ltb n 10)) [
  | inl small ↦ rw small
  | inr large ↦ rw large (
      digits-append fuel (n / 10) ((b'0' + n % 10) ∷ acc)
      ∙ sym (append_assoc (digits fuel (n / 10) []) ((b'0' + n % 10) ∷ []) acc)
      ∙ ap (λ ds. ds ++ acc) (sym (digits-append fuel (n / 10) ((b'0' + n % 10) ∷ []))))
]

abbrev pub IsDigits : Text → Type 0
IsDigits [] = Unit
IsDigits (c ∷ s) = (48 ≤ c) × (c ≤ 57) × IsDigits s

IsDigits-digits : (fuel n : ℕ) (acc : Text) → IsDigits acc → IsDigits (digits fuel n acc)
unfolding digits
IsDigits-digits zero n acc h = h
IsDigits-digits (suc fuel) n acc h = elim (Bool-cases (ltb n 10)) [
  | inl small ↦ rw small (omega arith, omega (arith, ltb→lt n 10 small), h)
  | inr large ↦
      rw large (IsDigits-digits fuel (n / 10) ((b'0' + n % 10) ∷ acc) (omega arith, omega arith, h))
]

-- A printed number consists of decimal digits.
pub IsDigits-decimal : (n : ℕ) → IsDigits (decimal n)
unfolding decimal
IsDigits-decimal n = IsDigits-digits (suc n) n [] tt

-- It is never empty: it has a last digit.
pub decimal_last : (n : ℕ) → (s : Text) × (c : ℕ) × (decimal n ≡ s ++ c ∷ []) × (48 ≤ c) × (c ≤ 57)
unfolding decimal digits
decimal_last n = elim (Bool-cases (ltb n 10)) [
  | inl small ↦ ([], b'0' + n, rw small, omega arith, omega (arith, ltb→lt n 10 small))
  | inr large ↦ (
    digits n (n / 10) [],
    b'0' + n % 10,
    rw large (digits-append n (n / 10) ((b'0' + n % 10) ∷ [])),
    omega arith,
    omega arith,
  )
]

-- The digits of a number, read from the left, as long as the value is at most `limit`.
read_digits : ℕ → ℕ → Text → Option ℕ
read_digits limit acc [] = some acc
read_digits limit acc (c ∷ s) =
    let next = acc * 10 + (c - b'0') in
    if leb b'0' c && leb c b'9' && leb next limit then read_digits limit next s else none

-- `s.parse::<uN>()` for the largest value `limit`: one `+` may stand before the digits.
unfoldable pub parse_unsigned : ℕ → Text → Option ℕ
unfolding read_digits
parse_unsigned limit [] = none
parse_unsigned limit (c ∷ s) =
    if c == b'+'
    then (if is_empty s then none else read_digits limit 0 s)
    else read_digits limit 0 (c ∷ s)

read_digits-append :
    (limit acc n : ℕ) (s : Text) (c : ℕ)
    → read_digits limit acc s ≡ some n
    → 48 ≤ c
    → c ≤ 57
    → n * 10 + (c - 48) ≤ limit
    → read_digits limit acc (s ++ c ∷ []) ≡ some (n * 10 + (c - 48))
unfolding read_digits
read_digits-append limit acc n [] c e lo hi fits = ground arith
read_digits-append limit acc n (d ∷ s) c e lo hi fits =
    ground (arith, read_digits-append limit (acc * 10 + (d - 48)) n s c)

read_one : (limit n : ℕ) → n < 10 → n ≤ limit → read_digits limit 0 ((48 + n) ∷ []) ≡ some n
unfolding read_digits
read_one limit n small fits = ground arith

leb_of : (n : ℕ) → ltb n 10 ≡ false → 10 ≤ n
leb_of n h = ground arith

parse_unsigned-IsDigits :
    (limit : ℕ) (s : Text)
    → is_empty s ≡ false
    → IsDigits s
    → parse_unsigned limit s ≡ read_digits limit 0 s
unfolding parse_unsigned
parse_unsigned-IsDigits limit [] h d = absurd (ground arith)
parse_unsigned-IsDigits limit (c ∷ s) h d = ground arith

decimal-nonempty : (n : ℕ) → is_empty (decimal n) ≡ false
decimal-nonempty n = let (s, c, e, _, _) = decimal_last n in ap is_empty e ∙ nonempty s c
  where
    nonempty : (s : Text) (c : ℕ) → is_empty (s ++ c ∷ []) ≡ false
    nonempty [] c = refl
    nonempty (_ ∷ _) c = refl

read_digits-digits :
    (limit fuel n : ℕ) → n < fuel → n ≤ limit → read_digits limit 0 (digits fuel n []) ≡ some n
unfolding digits
read_digits-digits limit zero n h fits = absurd (omega arith)
read_digits-digits limit (suc fuel) n h fits = elim (Bool-cases (ltb n 10)) [
  | inl small ↦ rw small (read_one limit n (ltb→lt n 10 small) fits)
  | inr large ↦ rw large (
      ap (read_digits limit 0) (digits-append fuel (n / 10) ((b'0' + n % 10) ∷ []))
      ∙ read_digits-append limit 0 (n / 10) (digits fuel (n / 10) []) (b'0' + n % 10)
          (read_digits-digits limit fuel (n / 10) (omega (arith, leb_of n large)) (omega arith))
          (omega arith) (omega arith) (omega arith)
      ∙ ap some (omega arith))
]

-- A printed number is read back, if it is at most the limit.
pub parse_unsigned-decimal : (limit n : ℕ) → n ≤ limit → parse_unsigned limit (decimal n) ≡ some n
unfolding parse_unsigned decimal
parse_unsigned-decimal limit n fits =
    parse_unsigned-IsDigits limit (decimal n) (decimal-nonempty n) (IsDigits-decimal n)
    ∙ read_digits-digits limit (suc n) n (omega arith) fits
