-- ===== src/Routing/Lpm.antt =====
-- The binary trie of routing/matcher.rs against the longest-prefix match that it stands for.
use network_client.Prelude.{
  ◌≡◌, refl, sym, ap, ◌∙◌, fun_ext, Bool, true, false, Option, none, some, List, [], ◌∷◌, arith,
  if◌then◌else◌, ℕ, take,
}
use network_client.Routing.BitTrie
use network_client.Routing.BitTrie.{BitNode, Child, node, absent, present, leaf_of, prefer}

abbrev pub bits_eq : List Bool → List Bool → Bool
bits_eq [] [] = true
bits_eq [] (_ ∷ _) = false
bits_eq (_ ∷ _) [] = false
bits_eq (true ∷ p) (true ∷ q) = bits_eq p q
bits_eq (false ∷ p) (false ∷ q) = bits_eq p q
bits_eq (true ∷ p) (false ∷ q) = false
bits_eq (false ∷ p) (true ∷ q) = false

module _ {A : Type 0} where
  -- The leaf that is stored at the end of a path.
  pub leaf_at : List Bool → BitNode A → Option A
  leaf_at [] n = leaf_of n
  leaf_at (false ∷ bits) (node absent _ _) = none
  leaf_at (false ∷ bits) (node (present n) _ _) = leaf_at bits n
  leaf_at (true ∷ bits) (node _ absent _) = none
  leaf_at (true ∷ bits) (node _ (present n) _) = leaf_at bits n

  -- The specification: of a table of prefixes, the value of the longest prefix of an address.
  pub longest : (List Bool → Option A) → List Bool → Option A
  longest f [] = f []
  longest f (b ∷ bits) = prefer (longest (λ p. f (b ∷ p)) bits) (f [])

  leaf_at-new : (q : List Bool) → leaf_at q (node absent absent none) ≡ none
  unfolding leaf_at
  leaf_at-new [] = refl
  leaf_at-new (false ∷ q) = refl
  leaf_at-new (true ∷ q) = refl

  -- An insertion sets the leaf of its own path, and no other.
  pub leaf_at-insert_path :
      (p q : List Bool) (a : A) (n : BitNode A)
      → leaf_at q (BitTrie.insert_path p a n) ≡ (if bits_eq p q then some a else leaf_at q n)
  unfolding leaf_at BitTrie.insert_path
  leaf_at-insert_path [] [] a (node z o l) = refl
  leaf_at-insert_path [] (false ∷ q) a (node absent o l) = refl
  leaf_at-insert_path [] (false ∷ q) a (node (present n) o l) = refl
  leaf_at-insert_path [] (true ∷ q) a (node absent absent l) = refl
  leaf_at-insert_path [] (true ∷ q) a (node (present m) absent l) = refl
  leaf_at-insert_path [] (true ∷ q) a (node absent (present n) l) = refl
  leaf_at-insert_path [] (true ∷ q) a (node (present m) (present n) l) = refl
  leaf_at-insert_path (false ∷ p) [] a (node absent o l) = refl
  leaf_at-insert_path (false ∷ p) [] a (node (present n) o l) = refl
  leaf_at-insert_path (true ∷ p) [] a (node z absent l) = refl
  leaf_at-insert_path (true ∷ p) [] a (node z (present n) l) = refl
  leaf_at-insert_path (false ∷ p) (false ∷ q) a (node absent o l) =
      ground (arith, leaf_at-insert_path p q a (node absent absent none), leaf_at-new q)
  leaf_at-insert_path (false ∷ p) (false ∷ q) a (node (present n) o l) = leaf_at-insert_path p q a n
  leaf_at-insert_path (false ∷ p) (true ∷ q) a (node absent absent l) = refl
  leaf_at-insert_path (false ∷ p) (true ∷ q) a (node absent (present m) l) = refl
  leaf_at-insert_path (false ∷ p) (true ∷ q) a (node (present n) absent l) = refl
  leaf_at-insert_path (false ∷ p) (true ∷ q) a (node (present n) (present m) l) = refl
  leaf_at-insert_path (true ∷ p) (true ∷ q) a (node z absent l) =
      ground (arith, leaf_at-insert_path p q a (node absent absent none), leaf_at-new q)
  leaf_at-insert_path (true ∷ p) (true ∷ q) a (node absent (present n) l) =
      leaf_at-insert_path p q a n
  leaf_at-insert_path (true ∷ p) (true ∷ q) a (node (present m) (present n) l) =
      leaf_at-insert_path p q a n
  leaf_at-insert_path (true ∷ p) (false ∷ q) a (node absent absent l) = refl
  leaf_at-insert_path (true ∷ p) (false ∷ q) a (node (present m) absent l) = refl
  leaf_at-insert_path (true ∷ p) (false ∷ q) a (node absent (present n) l) = refl
  leaf_at-insert_path (true ∷ p) (false ∷ q) a (node (present m) (present n) l) = refl

  longest-cong :
      (f g : List Bool → Option A) (bits : List Bool)
      → ((q : List Bool) → f q ≡ g q)
      → longest f bits ≡ longest g bits
  longest-cong f g bits h = ap (λ k. longest k bits) (fun_ext h)

  longest-none : (bits : List Bool) → ◌≡◌ {A = Option A} (longest (λ _. none) bits) none
  unfolding longest
  longest-none [] = refl
  longest-none (b ∷ bits) = rw (longest-none bits)

  prefer_assoc : (a b c : Option A) → prefer a (prefer b c) ≡ prefer (prefer a b) c
  prefer_assoc none b c = refl
  prefer_assoc (some x) b c = refl

  -- The loop returns the longest match below the node, or else what it had found before.
  lookup_from-longest :
      (bits : List Bool) (n : BitNode A) (best : Option A)
      → BitTrie.lookup_from bits n (prefer (leaf_of n) best)
        ≡ prefer (longest (λ q. leaf_at q n) bits) best
  unfolding leaf_at longest BitTrie.lookup_from
  lookup_from-longest [] n best = refl
  lookup_from-longest (false ∷ bits) (node absent o l) best = rw (longest-none bits) refl
  lookup_from-longest (false ∷ bits) (node (present n) o l) best =
      lookup_from-longest bits n (prefer l best)
      ∙ prefer_assoc (longest (λ q. leaf_at q n) bits) l best
  lookup_from-longest (true ∷ bits) (node absent absent l) best = rw (longest-none bits) refl
  lookup_from-longest (true ∷ bits) (node (present m) absent l) best = rw (longest-none bits) refl
  lookup_from-longest (true ∷ bits) (node absent (present n) l) best =
      lookup_from-longest bits n (prefer l best)
      ∙ prefer_assoc (longest (λ q. leaf_at q n) bits) l best
  lookup_from-longest (true ∷ bits) (node (present m) (present n) l) best =
      lookup_from-longest bits n (prefer l best)
      ∙ prefer_assoc (longest (λ q. leaf_at q n) bits) l best

  prefer-none : (a : Option A) → prefer a none ≡ a
  prefer-none none = refl
  prefer-none (some x) = refl

  pub lookup-longest :
      (bits : List Bool) (n : BitNode A) → BitTrie.lookup bits n ≡ longest (λ q. leaf_at q n) bits
  unfolding BitTrie.lookup
  lookup-longest bits n =
      ap (BitTrie.lookup_from bits n) (sym (prefer-none (leaf_of n)))
      ∙ lookup_from-longest bits n none
      ∙ prefer-none (longest (λ q. leaf_at q n) bits)

  -- After an insertion, a lookup returns the value of the longest prefix of the address in the old
  -- table with the inserted prefix, of the given number of bits, bound to the new value.
  pub lookup-insert :
      (addr bits : List Bool) (prefix : ℕ) (a : A) (n : BitNode A)
      → BitTrie.lookup addr (BitTrie.insert bits prefix a n)
        ≡ longest (λ q. if bits_eq (take prefix bits) q then some a else leaf_at q n) addr
  unfolding BitTrie.insert
  lookup-insert addr bits prefix a n =
      lookup-longest addr (BitTrie.insert bits prefix a n)
      ∙ longest-cong (λ q. leaf_at q (BitTrie.insert bits prefix a n))
          (λ q. if bits_eq (take prefix bits) q then some a else leaf_at q n) addr
          (λ q. leaf_at-insert_path (take prefix bits) q a n)

  -- The empty table has no match.
  pub lookup-new : (addr : List Bool) → ◌≡◌ {A = Option A} (BitTrie.lookup addr BitTrie.new) none
  unfolding BitTrie.lookup BitTrie.lookup_from BitTrie.new
  lookup-new [] = refl
  lookup-new (false ∷ bits) = refl
  lookup-new (true ∷ bits) = refl
