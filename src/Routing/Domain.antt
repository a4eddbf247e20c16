-- ===== src/Routing/Domain.antt =====
-- Which match of a domain name wins, in service/network-service/src/routing/matcher.rs.
use network_client.Prelude.{
  ℕ, ◌≤◌, Bool, true, false, Option, none, some, List, [], ◌∷◌, Text, contains, to_ascii_lowercase,
  lookup, arith, if◌then◌else◌,
}
use network_client.Routing.DomainTrie.{M, lookup_suffix}
use network_client.Routing.Index.{RuleIndex, better, scan, match_domain}

-- There is a result, and its priority is at least the number.
abbrev pub AtLeast : ℕ → Option M → Type 0
AtLeast n none = ⊥
AtLeast n (some w) = n ≤ w.priority

-- No single candidate is better than the result.
abbrev pub Beats : Option M → Option M → Type 0
Beats r none = Unit
Beats r (some m) = AtLeast m.priority r

-- No entry of the table that passes the test is better than the result.
abbrev pub BeatsAll : {K : Type 0} → (K → Bool) → Option M → List (K × M) → Type 0
BeatsAll test r [] = Unit
BeatsAll test r ((k, m) ∷ entries) =
    (if test k then AtLeast m.priority r else Unit {0}) × BeatsAll test r entries

AtLeast-better_left : (n : ℕ) (a b : Option M) → AtLeast n a → AtLeast n (better a b)
AtLeast-better_left n a none h = h
AtLeast-better_left n none (some m) h = absurd h
AtLeast-better_left n (some cur) (some m) h = ground arith

AtLeast-better_right : (a : Option M) (m : M) → AtLeast m.priority (better a (some m))
AtLeast-better_right none m = omega arith
AtLeast-better_right (some cur) m = ground arith

-- A step of the loop keeps what is reached.
AtLeast-step :
    (n : ℕ) (b : Bool) (best : Option M) (m : M)
    → AtLeast n best
    → AtLeast n (if b then better best (some m) else best)
AtLeast-step n true best m h = AtLeast-better_left n best (some m) h
AtLeast-step n false best m h = h

AtLeast-scan :
    {K : Type 0} (n : ℕ) (test : K → Bool) (entries : List (K × M)) (best : Option M)
    → AtLeast n best
    → AtLeast n (scan test entries best)
unfolding scan
AtLeast-scan n test [] best h = h
AtLeast-scan n test ((k, m) ∷ entries) best h =
    AtLeast-scan n test entries (if test k then better best (some m) else best)
      (AtLeast-step n (test k) best m h)

-- The entry at the head is met.
scan_head :
    {K : Type 0} (b : Bool) (test : K → Bool) (entries : List (K × M)) (best : Option M) (m : M)
    → (if b
        then AtLeast m.priority (scan test entries (if b then better best (some m) else best))
        else Unit {0})
scan_head true test entries best m =
    AtLeast-scan m.priority test entries (better best (some m)) (AtLeast-better_right best m)
scan_head false test entries best m = tt

BeatsAll-scan :
    {K : Type 0} (test : K → Bool) (entries : List (K × M)) (best : Option M)
    → BeatsAll test (scan test entries best) entries
unfolding scan
BeatsAll-scan test [] best = tt
BeatsAll-scan test ((k, m) ∷ entries) best = (
  scan_head (test k) test entries best m,
  BeatsAll-scan test entries (if test k then better best (some m) else best),
)

Beats-better_left : (a b c : Option M) → Beats a c → Beats (better a b) c
Beats-better_left a b none h = tt
Beats-better_left a b (some m) h = AtLeast-better_left m.priority a b h

Beats-better_right : (a c : Option M) → Beats (better a c) c
Beats-better_right a none = tt
Beats-better_right a (some m) = AtLeast-better_right a m

Beats-scan :
    {K : Type 0} (test : K → Bool) (entries : List (K × M)) (best c : Option M)
    → Beats best c
    → Beats (scan test entries best) c
Beats-scan test entries best none h = tt
Beats-scan test entries best (some m) h = AtLeast-scan m.priority test entries best h

if-AtLeast :
    (b : Bool) (r s : Option M) (m : M)
    → ((n : ℕ) → AtLeast n r → AtLeast n s)
    → (if b then AtLeast m.priority r else Unit {0})
    → (if b then AtLeast m.priority s else Unit {0})
if-AtLeast true r s m up h = up m.priority h
if-AtLeast false r s m up h = tt

BeatsAll-up :
    {K : Type 0} (test : K → Bool) (r s : Option M) (entries : List (K × M))
    → ((n : ℕ) → AtLeast n r → AtLeast n s)
    → BeatsAll test r entries
    → BeatsAll test s entries
BeatsAll-up test r s [] up h = tt
BeatsAll-up test r s ((k, m) ∷ entries) up (h, hs) =
    (if-AtLeast (test k) r s m up h, BeatsAll-up test r s entries up hs)

module _ {Regex : Type 0} (is_match : Regex → Text → Bool) where
  -- The match of a domain name has a priority that none of its candidates exceeds: not the rule for
  -- the exact name, not the rule of the suffix table, not a keyword that the name contains and not a
  -- pattern that matches it. If there is any candidate, there is a match.
  pub match_domain-Beats :
      (name : Text) (idx : RuleIndex Regex)
      → let r = match_domain is_match name idx in
        Beats r (lookup (to_ascii_lowercase name) idx.exact)
        × Beats r (lookup_suffix name idx.suffix)
        × BeatsAll (λ kw. contains kw (to_ascii_lowercase name)) r idx.keyword
        × BeatsAll (λ re. is_match re name) r idx.regex
  unfolding match_domain
  match_domain-Beats name idx =
      let exact = lookup (to_ascii_lowercase name) idx.exact in
      let suffix = lookup_suffix name idx.suffix in
      let first = better (better none exact) suffix in
      let has_keyword : Text → Bool = λ kw. contains kw (to_ascii_lowercase name) in
      let has_pattern : Regex → Bool = λ re. is_match re name in
      let second = scan has_keyword idx.keyword first in
      (
        Beats-scan has_pattern idx.regex second exact (
            Beats-scan has_keyword idx.keyword first exact
              (Beats-better_left (better none exact) suffix exact (Beats-better_right none exact))),
        Beats-scan has_pattern idx.regex second suffix (
            Beats-scan has_keyword idx.keyword first suffix
              (Beats-better_right (better none exact) suffix)),
        BeatsAll-up has_keyword second (scan has_pattern idx.regex second) idx.keyword
            (λ n. AtLeast-scan n has_pattern idx.regex second)
            (BeatsAll-scan has_keyword idx.keyword first),
        BeatsAll-scan has_pattern idx.regex second,
      )
