-- ===== src/Dns/Wire/Question.antt =====
-- `read_name` of dns/wire.rs on the names that `build_query` writes, and on pointers to them.
use network_client.Prelude.{
  ℕ, ◌+◌, ◌*◌, ◌-◌, ◌/◌, ◌%◌, ◌≤◌, ◌<◌, ◌≡◌, refl, sym, ap, ◌∙◌, true, some, List, [], ◌∷◌, ◌++◌,
  length, drop, length-append, length-drop_next, get_or-drop_next, drop_next, arith, Text,
  to_be_bytes, as_bytes,
}
use network_client.Dns.Wire.{
  Cursor, again, after, round, read_labels, start, rounds, write_labels, follow, read_name,
  build_query, labels_of, join,
}
use network_client.Dns.Wire.Names.{AreLabels, read_labels-write_labels, read_labels-again}
use mathlib.Core.List.{append_assoc}

length-write_labels : (ls : List Text) → length ls ≤ length (write_labels ls)
unfolding write_labels
length-write_labels [] = omega arith
length-write_labels (l ∷ ls) =
    omega (arith, length-append (as_bytes l) (write_labels ls), length-write_labels ls)

-- A buffer that goes on with some bytes is as long.
pub length-drop_all :
    (m : ℕ) (xs ys : List ℕ) → 1 ≤ length ys → drop m xs ≡ ys → length xs ≡ m + length ys
length-drop_all m xs [] h e = absurd (omega arith)
length-drop_all m xs (y ∷ ys) h e = length-drop_next m xs ys y e

length-labels :
    (ls : List Text) (m : ℕ) (buf r : List ℕ)
    → drop m buf ≡ write_labels ls ++ 0 ∷ r
    → length ls < length buf
length-labels ls m buf r e =
    let count = length-append (write_labels ls) (0 ∷ r) in
    omega (
      arith,
      count,
      length-drop_all m buf (write_labels ls ++ 0 ∷ r) (omega (arith, count)) e,
      length-write_labels ls,
    )

read_name-of :
    (buf : List ℕ) (offset next : ℕ) (labels : List Text)
    → read_labels (rounds buf) buf (start offset) ≡ some (some (labels, next))
    → read_name buf offset ≡ some (join labels, next)
unfolding read_name
read_name-of buf offset next labels e = rw (e, read_name) refl

-- The labels that stand in a buffer, closed by the byte 0, are read as a name.
pub read_name-write_labels :
    (ls : List Text) (offset : ℕ) (buf r : List ℕ)
    → AreLabels ls
    → drop offset buf ≡ write_labels ls ++ 0 ∷ r
    → read_name buf offset ≡ some (join ls, offset + length (write_labels ls) + 1)
read_name-write_labels ls offset buf r good e = read_name-of buf offset _ ls (
    read_labels-write_labels ls (rounds buf) buf r (start offset) good
      (omega (arith, length-labels ls offset buf r e)) e)

-- The two bytes of a pointer.
abbrev pub to_pointer : ℕ → List ℕ
to_pointer p = (0xc0 + p / 256) ∷ p % 256 ∷ []

jump : Cursor → ℕ → Cursor
jump c p = record c {
  offset = p;
  jumped = true;
  next_after = after c (c.offset + 2);
  hops = c.hops + 1;
}

round-pointer :
    (buf r : List ℕ) (c : Cursor) (p : ℕ)
    → p < 0x4000
    → c.hops < 16
    → drop c.offset buf ≡ to_pointer p ++ r
    → round buf c ≡ again (jump c p)
unfolding round follow jump
round-pointer buf r c p small few e =
    let fits = length-drop_next c.offset buf _ _ e in
    let first = get_or-drop_next c.offset buf _ _ 0 e in
    let second = get_or-drop_next (c.offset + 1) buf r (p % 256) 0 (drop_next c.offset buf _ _ e) in
    ground (arith, fits, first, second)

-- A pointer to the labels is read as their name, and the offset after it is the one behind the pointer.
pub read_name-to_pointer :
    (ls : List Text) (offset p : ℕ) (buf r s : List ℕ)
    → AreLabels ls
    → p < 0x4000
    → drop offset buf ≡ to_pointer p ++ s
    → drop p buf ≡ write_labels ls ++ 0 ∷ r
    → read_name buf offset ≡ some (join ls, offset + 2)
unfolding jump
read_name-to_pointer ls offset p buf r s good small e target =
    let fuel : ℕ = 16 + 17 * length buf in
    read_name-of buf offset _ ls (
      read_labels-again fuel buf (start offset) (jump (start offset) p)
        (round-pointer buf s (start offset) p small (omega arith) e)
      ∙ read_labels-write_labels ls fuel buf r (jump (start offset) p) good
          (omega (arith, length-labels ls p buf r target)) target)

-- The name of a query is read back from it, whatever follows the query: without the empty labels, and
-- with the offset of the type behind it. Each label is a text of one to 191 bytes.
pub read_name-build_query :
    (name : Text) (qtype id : ℕ) (r : List ℕ)
    → AreLabels (labels_of name)
    → read_name (build_query name qtype id ++ r) 12
      ≡ some (join (labels_of name), length (build_query name qtype id) - 4)
unfolding build_query
read_name-build_query name qtype id r good =
    let w = write_labels (labels_of name) in
    let q = to_be_bytes qtype in
    let regroup : (w ++ 0 ∷ q ++ to_be_bytes 1 ++ r) ≡ w ++ 0 ∷ (q ++ to_be_bytes 1 ++ r) =
      ap (λ x. x ++ r) (append_assoc w (0 ∷ q) (to_be_bytes 1))
      ∙ append_assoc w (0 ∷ q ++ to_be_bytes 1) r in
    let count : length (build_query name qtype id) - 4 ≡ 12 + length w + 1 =
      omega (arith, length-append w (0 ∷ q), length-append (w ++ 0 ∷ q) (to_be_bytes 1)) in
    read_name-write_labels (labels_of name) 12 _ (q ++ to_be_bytes 1 ++ r) good regroup
    ∙ ap (λ k. some (join (labels_of name), k)) (sym count)
