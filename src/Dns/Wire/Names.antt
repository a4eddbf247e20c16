-- ===== src/Dns/Wire/Names.antt =====
-- The loop of `read_name` in dns/wire.rs: it ends, and it reads what `build_query` writes.
use network_client.Prelude.{
  ℕ, zero, suc, ◌+◌, ◌*◌, ◌-◌, ◌%◌, ◌≤◌, ◌<◌, ◌≡◌, ◌≢◌, refl, sym, ap, ◌∙◌, Option, none, some,
  List, [], ◌∷◌, ◌++◌, length, drop, length-append, drop-drop, drop-append, length-drop_next,
  get_or-drop_next, drop_next, take-append, arith, Text, IsString, as_bytes, from_utf8_lossy, slice,
  from_utf8_lossy-as_bytes, inl, inr, ◌⊎◌,
}
use network_client.Dns.Wire.{
  Cursor, Step, finished, again, after, round, read_labels, start, rounds, write_labels, follow,
  take_label,
}
use mathlib.Core.List.{append_assoc, append-nil}

-- What the loop has left: a whole pass over the buffer for each jump, and the bytes behind the offset.
abbrev left : List ℕ → Cursor → ℕ
left buf c = (16 - c.hops) * (length buf + 1) + (length buf - c.offset)

pass : (h n r s : ℕ) → h + 1 ≤ 16 → s ≤ n → (16 - (h + 1)) * (n + 1) + s < (16 - h) * (n + 1) + r
pass h n r s p k = let more : 16 - h ≡ (16 - (h + 1)) + 1 = omega arith in grind (arith, more)

left-follow : (buf : List ℕ) (c d : Cursor) → follow buf c ≡ again d → left buf d < left buf c
unfolding follow
left-follow buf c d e =
    ground (arith, pass c.hops (length buf) (length buf - c.offset) (length buf - d.offset))

left-take_label :
    (buf : List ℕ) (c d : Cursor)
    → c.offset < length buf
    → take_label buf c ≡ again d
    → left buf d < left buf c
unfolding take_label
left-take_label buf c d h e = ground arith

left-round : (buf : List ℕ) (c d : Cursor) → round buf c ≡ again d → left buf d < left buf c
unfolding round
left-round buf c d e = ground (arith, left-follow buf c d, left-take_label buf c d)

Step-cases :
    (s : Step) → ((r : Option (List Text × ℕ)) × (s ≡ finished r)) ⊎ ((d : Cursor) × (s ≡ again d))
Step-cases (finished r) = inl (r, refl)
Step-cases (again d) = inr (d, refl)

read_labels-finished :
    (fuel : ℕ) (buf : List ℕ) (c : Cursor) (r : Option (List Text × ℕ))
    → round buf c ≡ finished r
    → read_labels (suc fuel) buf c ≡ some r
unfolding read_labels
read_labels-finished fuel buf c r e = rw (e, read_labels) refl

pub read_labels-again :
    (fuel : ℕ) (buf : List ℕ) (c d : Cursor)
    → round buf c ≡ again d
    → read_labels (suc fuel) buf c ≡ read_labels fuel buf d
unfolding read_labels
read_labels-again fuel buf c d e = rw (e, read_labels) refl

read_labels-ends :
    (fuel : ℕ) (buf : List ℕ) (c : Cursor) → left buf c < fuel → read_labels fuel buf c ≢ none
read_labels-ends zero buf c h = absurd (omega arith)
read_labels-ends (suc fuel) buf c h = elim (Step-cases (round buf c)) [
  | inl (r, e) ↦ rw (read_labels-finished fuel buf c r e) (λ p. cc)
  | inr (d, e) ↦
      rw (read_labels-again fuel buf c d e)
        (read_labels-ends fuel buf d (omega (arith, left-round buf c d e)))
]

-- Whatever the buffer, also where its pointers run in a circle, the loop of `read_name` ends within
-- the given rounds.
pub read_name-ends :
    (buf : List ℕ) (offset : ℕ) → read_labels (rounds buf) buf (start offset) ≢ none
read_name-ends buf offset = read_labels-ends (rounds buf) buf (start offset) (omega arith)

-- A label that the builder writes as it is: not empty, and too short to look like a pointer.
abbrev pub IsLabel : Text → Type 0
IsLabel l = IsString l × (1 ≤ length (as_bytes l)) × (length (as_bytes l) < 192)

abbrev pub AreLabels : List Text → Type 0
AreLabels [] = Unit
AreLabels (l ∷ ls) = IsLabel l × AreLabels ls

round-end :
    (buf r : List ℕ) (c : Cursor)
    → drop c.offset buf ≡ 0 ∷ r
    → round buf c ≡ finished (some (c.labels, after c (c.offset + 1)))
unfolding round
round-end buf r c e =
    ground (arith, length-drop_next c.offset buf r 0 e, get_or-drop_next c.offset buf r 0 0 e)

-- The cursor behind a label of `n` bytes.
abbrev past : Cursor → Text → ℕ → Cursor
past c l n = record c {
  offset = c.offset + 1 + n;
  labels = c.labels ++ l ∷ [];
  next_after = after c (c.offset + 1 + n);
}

drop-past :
    (buf r : List ℕ) (c : Cursor) (l : Text) (n : ℕ)
    → n ≡ length (as_bytes l)
    → drop c.offset buf ≡ n ∷ as_bytes l ++ r
    → drop (past c l n).offset buf ≡ r
drop-past buf r c l n count e =
    sym (drop-drop (c.offset + 1) n buf)
    ∙ ap (drop n) (drop_next c.offset buf (as_bytes l ++ r) n e)
    ∙ ap (λ k. drop k (as_bytes l ++ r)) count
    ∙ drop-append (as_bytes l) r

-- What `build_query` writes of a label that is short enough.
written :
    (m : ℕ) (buf : List ℕ) (l : Text) (ls : List Text) (r : List ℕ)
    → IsLabel l
    → drop m buf ≡ write_labels (l ∷ ls) ++ 0 ∷ r
    → drop m buf ≡ length (as_bytes l) ∷ as_bytes l ++ (write_labels ls ++ 0 ∷ r)
unfolding write_labels
written m buf l ls r (_, _, short) e =
    let low : length (as_bytes l) % 256 ≡ length (as_bytes l) = omega arith in
    e
    ∙ ap (λ n. n ∷ (as_bytes l ++ write_labels ls) ++ 0 ∷ r) low
    ∙ ap (λ s. length (as_bytes l) ∷ s) (append_assoc (as_bytes l) (write_labels ls) (0 ∷ r))

round-label :
    (buf r : List ℕ) (c : Cursor) (l : Text) (n : ℕ)
    → IsLabel l
    → n ≡ length (as_bytes l)
    → drop c.offset buf ≡ n ∷ as_bytes l ++ r
    → round buf c ≡ again (past c l n)
unfolding round take_label
round-label buf r c l n (valid, some_byte, short) count e =
    let fits = length-drop_next c.offset buf (as_bytes l ++ r) n e in
    let first = get_or-drop_next c.offset buf (as_bytes l ++ r) n 0 e in
    let text : from_utf8_lossy (slice (c.offset + 1) n buf) ≡ l =
      rw (drop_next c.offset buf (as_bytes l ++ r) n e, count, take-append (as_bytes l) r)
        (from_utf8_lossy-as_bytes l valid) in
    ground (arith, fits, first, text, length-append (as_bytes l) r)

-- Where a buffer goes on with the labels of a name and the byte 0 behind them, the loop reads them.
pub read_labels-write_labels :
    (ls : List Text) (fuel : ℕ) (buf r : List ℕ) (c : Cursor)
    → AreLabels ls
    → length ls < fuel
    → drop c.offset buf ≡ write_labels ls ++ 0 ∷ r
    → read_labels fuel buf c
      ≡ some (some (c.labels ++ ls, after c (c.offset + length (write_labels ls) + 1)))
unfolding write_labels
read_labels-write_labels ls zero buf r c good h e = absurd (omega arith)
read_labels-write_labels [] (suc fuel) buf r c good h e =
    rw (read_labels-finished fuel buf c _ (round-end buf r c e), append-nil c.labels) (ground arith)
read_labels-write_labels (l ∷ ls) (suc fuel) buf r c (good, goods) h e =
    let n : ℕ = length (as_bytes l) in
    let d : Cursor = past c l n in
    let bytes : drop c.offset buf ≡ n ∷ as_bytes l ++ (write_labels ls ++ 0 ∷ r) =
      written c.offset buf l ls r good e in
    let tail =
      read_labels-write_labels ls fuel buf r d goods (omega arith)
        (drop-past buf _ c l n refl bytes) in
    ground (
      arith,
      read_labels-again fuel buf c d
          (round-label buf (write_labels ls ++ 0 ∷ r) c l n good refl bytes),
      tail,
      append_assoc c.labels (l ∷ []) ls,
      length-append (as_bytes l) (write_labels ls),
    )
