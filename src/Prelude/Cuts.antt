-- ===== src/Prelude/Cuts.antt =====
-- Cutting texts: `rsplit_once`, `split_once` of a longer separator, `lines`, and the round trip of a
-- printed number.
use Prim.Native.Nat.{ℕ, zero, suc}
use mathlib.Core.Path.{◌≡◌, refl}
use mathlib.Core.Option.{Option, none, some}
use mathlib.Core.List.{List, [], ◌∷◌, ◌++◌, reverse}
use native.Mathlib.Omega.{arith}
use network_client.Prelude.Tests.{◌==◌, if◌then◌else◌}
use network_client.Prelude.Lists.{drop, length}
use network_client.Prelude.Texts.{
  Text, is_empty, split, split_once, starts_with, strip_prefix, Lacks,
}

-- `rsplit_once(d)`
unfoldable pub rsplit_once : ℕ → Text → Option (Text × Text)
rsplit_once d [] = none
rsplit_once d (c ∷ s) = elim (rsplit_once d s) [
  | some (a, b) ↦ some (c ∷ a, b)
  | none ↦ if c == d then some ([], s) else none
]

rsplit_once-Lacks : (d : ℕ) (s : Text) → Lacks d s → rsplit_once d s ≡ none
unfolding rsplit_once
rsplit_once-Lacks d [] h = refl
rsplit_once-Lacks d (c ∷ s) h = ground (arith, rsplit_once-Lacks d s h.1, h.0)

-- The text is cut at its last separator.
pub rsplit_once-append : (d : ℕ) (s r : Text) → Lacks d r → rsplit_once d (s ++ d ∷ r) ≡ some (s, r)
unfolding rsplit_once
rsplit_once-append d [] r h = ground (arith, rsplit_once-Lacks d r h)
rsplit_once-append d (c ∷ s) r h = ground (arith, rsplit_once-append d s r h)

-- The text is cut at its first separator, or not at all.
pub split_once-append : (d : ℕ) (s r : Text) → Lacks d s → split_once d (s ++ d ∷ r) ≡ some (s, r)
unfolding split_once
split_once-append d [] r h = ground arith
split_once-append d (c ∷ s) r h = ground (arith, split_once-append d s r h.1)

pub split_once-Lacks : (d : ℕ) (s : Text) → Lacks d s → split_once d s ≡ none
unfolding split_once
split_once-Lacks d [] h = refl
split_once-Lacks d (c ∷ s) h = ground (arith, split_once-Lacks d s h.1)

-- `split_once(sep)` of a text
unfoldable pub split_once_text : Text → Text → Option (Text × Text)
split_once_text sep [] = if starts_with sep [] then some ([], []) else none
split_once_text sep (c ∷ s) =
    let rest : Option (Text × Text) = elim (split_once_text sep s) [
      | none ↦ none
      | some (a, b) ↦ some (c ∷ a, b)
    ] in
    if starts_with sep (c ∷ s) then some ([], drop (length sep) (c ∷ s)) else rest

-- `strip_suffix(c)`, or the text itself
unfoldable pub strip_last : ℕ → Text → Text
strip_last c [] = []
strip_last c (a ∷ []) = if a == c then [] else a ∷ []
strip_last c (a ∷ b ∷ s) = a ∷ strip_last c (b ∷ s)

line_ends : List Text → List Text
unfolding strip_last
line_ends [] = []
line_ends (l ∷ []) = if is_empty l then [] else l ∷ []
line_ends (l ∷ m ∷ ls) = strip_last b'\r' l ∷ line_ends (m ∷ ls)

-- `lines()`: a line ends in a line feed, with or without a carriage return before it.
unfoldable pub lines : Text → List Text
unfolding line_ends split
lines s = line_ends (split b'\n' s)

trim_char : ℕ → Text → Text
trim_char d [] = []
trim_char d (c ∷ s) = if c == d then trim_char d s else c ∷ s

-- `trim_matches(d)`
unfoldable pub trim_matches : ℕ → Text → Text
unfolding trim_char
trim_matches d s = reverse (trim_char d (reverse (trim_char d s)))

-- The text without the starts `p`, of which there are at most as many as it has characters.
trim_starts : ℕ → Text → Text → Text
trim_starts zero p s = s
trim_starts (suc fuel) p s = elim (strip_prefix p s) [ none ↦ s | some r ↦ trim_starts fuel p r ]

-- `trim_end_matches(p)`
unfoldable pub trim_end_matches : Text → Text → Text
unfolding trim_starts
trim_end_matches p s = reverse (trim_starts (length s) (reverse p) (reverse s))
