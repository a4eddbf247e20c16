-- ===== src/Prelude/Texts.antt =====
-- A Rust `String` is the list of its code points; `t` writes a literal.
use Prim.Native.Nat.{ℕ, ◌+◌, ◌-◌}
use Prim.Native.Char.{code}
use Prim.Native.String.{String}
use mathlib.Core.Path.{◌≡◌, refl, sym, ap, ◌≡⟨◌⟩◌, ◌∎}
use mathlib.Core.Logic.{◌↔◌, ◌≢◌}
use mathlib.Core.Bool.{Bool, true, false, ◌&&◌, ◌||◌}
use mathlib.Core.List.{List, [], ◌∷◌, ◌++◌, map, reverse, reverse-append, reverse-reverse}
use mathlib.Core.Option.{Option, none, some}
use native.Mathlib.Omega.{arith}
use network_client.Prelude.Tests.{leb, ◌==◌, if◌then◌else◌}

abbrev pub Text : Type 0
Text = List ℕ

abbrev pub t : String → Text
t String.[] = []
t (String.◌∷◌ c s) = code c ∷ t s

-- `==` on `&str`
unfoldable pub text_eq : Text → Text → Bool
text_eq [] [] = true
text_eq [] (_ ∷ _) = false
text_eq (_ ∷ _) [] = false
text_eq (a ∷ s) (b ∷ r) = (a == b) && text_eq s r

pub text_eq→≡ : (s r : Text) → text_eq s r ≡ true → s ≡ r
unfolding text_eq
text_eq→≡ [] [] h = refl
text_eq→≡ [] (_ ∷ _) h = ground arith
text_eq→≡ (_ ∷ _) [] h = ground arith
text_eq→≡ (a ∷ s) (b ∷ r) h = ground (arith, text_eq→≡ s r)

pub text_eq_refl : (s : Text) → text_eq s s ≡ true
unfolding text_eq
text_eq_refl [] = refl
text_eq_refl (a ∷ s) = ground (arith, text_eq_refl s)

-- The test on texts decides their equality.
pub text_eq_iff : (s r : Text) → (text_eq s r ≡ true) ↔ (s ≡ r)
text_eq_iff s r = (text_eq→≡ s r, λ e. subst_eq s r e)
  where
    subst_eq : (a b : Text) → a ≡ b → text_eq a b ≡ true
    subst_eq a b e = ground (arith, text_eq_refl a)

-- `is_empty`
abbrev pub is_empty {ℓ} : {A : Type ℓ} → List A → Bool
is_empty [] = true
is_empty (_ ∷ _) = false

lower : ℕ → ℕ
lower c = if leb b'A' c && leb c b'Z' then c + 32 else c

upper : ℕ → ℕ
upper c = if leb b'a' c && leb c b'z' then c - 32 else c

-- `to_ascii_lowercase`
unfoldable pub to_ascii_lowercase : Text → Text
unfolding lower
to_ascii_lowercase = map lower

-- `to_ascii_uppercase`
unfoldable pub to_ascii_uppercase : Text → Text
unfolding upper
to_ascii_uppercase = map upper

-- `eq_ignore_ascii_case`
unfoldable pub eq_ignore_ascii_case : Text → Text → Bool
unfolding to_ascii_lowercase text_eq
eq_ignore_ascii_case s r = text_eq (to_ascii_lowercase s) (to_ascii_lowercase r)

-- `char::is_whitespace`: the code points with the property White_Space.
unfoldable pub is_whitespace : ℕ → Bool
is_whitespace c =
    (leb 9 c && leb c 13)
    || (c == 0x20)
    || (c == 0x85)
    || (c == 0xa0)
    || (c == 0x1680)
    || (leb 0x2000 c && leb c 0x200a)
    || (c == 0x2028)
    || (c == 0x2029)
    || (c == 0x202f)
    || (c == 0x205f)
    || (c == 0x3000)

trim_start : Text → Text
unfolding is_whitespace
trim_start [] = []
trim_start (c ∷ s) = if is_whitespace c then trim_start s else c ∷ s

-- `trim`
unfoldable pub trim : Text → Text
unfolding trim_start
trim s = reverse (trim_start (reverse (trim_start s)))

abbrev cons_head : ℕ → List Text → List Text
cons_head c [] = (c ∷ []) ∷ []
cons_head c (p ∷ ps) = (c ∷ p) ∷ ps

-- `split(d)`: one part more than there are separators.
unfoldable pub split : ℕ → Text → List Text
split d [] = [] ∷ []
split d (c ∷ s) = if c == d then [] ∷ split d s else cons_head c (split d s)

-- A separator is not in the text.
abbrev pub Lacks : ℕ → Text → Type 0
Lacks d [] = Unit
Lacks d (c ∷ s) = (c ≢ d) × Lacks d s

-- The text before the first separator is the first part.
pub split-append : (d : ℕ) (s r : Text) → Lacks d s → split d (s ++ d ∷ r) ≡ s ∷ split d r
unfolding split
split-append d [] r h = ground arith
split-append d (c ∷ s) r h = ground (arith, split-append d s r h.1)

-- A text without separator is its own only part.
pub split-Lacks : (d : ℕ) (s : Text) → Lacks d s → split d s ≡ s ∷ []
unfolding split
split-Lacks d [] h = refl
split-Lacks d (c ∷ s) h = ground (arith, split-Lacks d s h.1)

pub Lacks-append : (d : ℕ) (s r : Text) → Lacks d s → Lacks d r → Lacks d (s ++ r)
Lacks-append d [] r h k = k
Lacks-append d (c ∷ s) r (ne, h) k = (ne, Lacks-append d s r h k)

trim_start_fix : (a : ℕ) (s : Text) → is_whitespace a ≡ false → trim_start (a ∷ s) ≡ a ∷ s
unfolding trim_start
trim_start_fix a s h = rw h

trim_lem : (s : Text) → trim s ≡ reverse (trim_start (reverse (trim_start s)))
unfolding trim
trim_lem s = refl

-- A text whose two ends are no white space is left as it is by `trim`.
pub trim_ends :
    (a : ℕ) (s : Text) (b : ℕ)
    → is_whitespace a ≡ false
    → is_whitespace b ≡ false
    → trim (a ∷ s ++ b ∷ []) ≡ a ∷ s ++ b ∷ []
trim_ends a s b ha hb =
    trim (a ∷ s ++ b ∷ [])
    ≡⟨ trim_lem (a ∷ (s ++ b ∷ [])) ⟩
      reverse (trim_start (reverse (trim_start (a ∷ (s ++ b ∷ [])))))
    ≡⟨ ap (λ u. reverse (trim_start (reverse u))) (trim_start_fix a (s ++ b ∷ []) ha) ⟩
      reverse (trim_start (reverse (a ∷ s ++ b ∷ [])))
    ≡⟨ ap (λ u. reverse (trim_start u)) (reverse-append (a ∷ s) (b ∷ [])) ⟩
      reverse (trim_start (b ∷ reverse (a ∷ s)))
    ≡⟨ ap reverse (trim_start_fix b (reverse (a ∷ s)) hb) ⟩ reverse (b ∷ reverse (a ∷ s))
    ≡⟨ ap reverse (sym (reverse-append (a ∷ s) (b ∷ []))) ⟩ reverse (reverse (a ∷ s ++ b ∷ []))
    ≡⟨ reverse-reverse (a ∷ s ++ b ∷ []) ⟩ a ∷ s ++ b ∷ [] ∎

-- `split_once(d)`
unfoldable pub split_once : ℕ → Text → Option (Text × Text)
split_once d [] = none
split_once d (c ∷ s) =
    let rest : Option (Text × Text) = elim (split_once d s) [
      | none ↦ none
      | some (a, b) ↦ some (c ∷ a, b)
    ] in
    if c == d then some ([], s) else rest

-- `strip_prefix`
abbrev pub strip_prefix : Text → Text → Option Text
strip_prefix [] s = some s
strip_prefix (_ ∷ _) [] = none
strip_prefix (a ∷ p) (b ∷ s) = if a == b then strip_prefix p s else none

-- `starts_with`
abbrev pub starts_with : Text → Text → Bool
starts_with p s = elim (strip_prefix p s) [ none ↦ false | some _ ↦ true ]

-- `haystack.contains(needle)`
unfoldable pub contains : Text → Text → Bool
contains p [] = starts_with p []
contains p (c ∷ s) = starts_with p (c ∷ s) || contains p s

starts_with_one : (c : ℕ) (s : Text) → starts_with (c ∷ []) (c ∷ s) ≡ true
starts_with_one c s = ground arith

-- A character that stands in a text is found in it.
pub contains-append : (c : ℕ) (s r : Text) → contains (c ∷ []) (s ++ c ∷ r) ≡ true
unfolding contains
contains-append c [] r = ground (arith, starts_with_one c r)
contains-append c (a ∷ s) r = ground (arith, contains-append c s r)

starts_with_left :
    (c : ℕ) (s r : Text) → starts_with (c ∷ []) s ≡ true → starts_with (c ∷ []) (s ++ r) ≡ true
starts_with_left c [] r h = ground arith
starts_with_left c (a ∷ s) r h = ground arith

pub contains_left :
    (c : ℕ) (s r : Text) → contains (c ∷ []) s ≡ true → contains (c ∷ []) (s ++ r) ≡ true
unfolding contains
contains_left c [] r h = ground arith
contains_left c (a ∷ s) r h = ground (arith, starts_with_left c (a ∷ s) r, contains_left c s r)

-- `HashMap<String, V>` as an association list.
module _ {ℓ} {V : Type ℓ} where
  unfoldable pub lookup : Text → List (Text × V) → Option V
  lookup k [] = none
  lookup k ((j, v) ∷ m) = if text_eq j k then some v else lookup k m

  unfoldable pub insert : Text → V → List (Text × V) → List (Text × V)
  insert k v [] = (k, v) ∷ []
  insert k v ((j, w) ∷ m) = if text_eq j k then (k, v) ∷ m else (j, w) ∷ insert k v m

  unfoldable pub remove : Text → List (Text × V) → List (Text × V)
  remove k [] = []
  remove k ((j, w) ∷ m) = if text_eq j k then remove k m else (j, w) ∷ remove k m

  -- A read after a write, at every key.
  pub lookup-insert :
      (k j : Text) (v : V) (m : List (Text × V))
      → lookup j (insert k v m) ≡ (if text_eq k j then some v else lookup j m)
  unfolding lookup insert
  lookup-insert k j v [] = refl
  lookup-insert k j v ((i, w) ∷ m) =
      ground (arith, text_eq_iff k j, text_eq_iff i k, text_eq_iff i j, lookup-insert k j v m)

  -- A read after a removal, at every key.
  pub lookup-remove :
      (k j : Text) (m : List (Text × V))
      → lookup j (remove k m) ≡ (if text_eq k j then none else lookup j m)
  unfolding lookup remove
  lookup-remove k j [] = ground arith
  lookup-remove k j ((i, w) ∷ m) =
      ground (arith, text_eq_iff k j, text_eq_iff i k, text_eq_iff i j, lookup-remove k j m)
