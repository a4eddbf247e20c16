-- ===== src/Routing/BitTrie.antt =====
-- The binary trie of service/network-service/src/routing/matcher.rs. A bit, which is a `u8` of 0 or 1
-- there, is a `Bool` here, and the two children are fields.
use network_client.Prelude.{
  ℕ, ◌/◌, ◌%◌, ◌^◌, Bool, true, false, Option, none, some, List, [], ◌∷◌, take, ◌==◌,
}

mutual
  pub data BitNode (A : Type 0) : Type 0 where
    node : Child A → Child A → Option A → BitNode A

  pub data Child (A : Type 0) : Type 0 where
    absent : Child A
    present : BitNode A → Child A

module _ {A : Type 0} where
  unfoldable pub new : BitNode A
  new = node absent absent none

  -- `get_or_insert_with(|| Box::new(BitNode::new()))`
  abbrev get_or_new : Child A → BitNode A
  get_or_new absent = node absent absent none
  get_or_new (present n) = n

  -- The way down that ends with the write of the leaf, along the bits that are kept.
  unfoldable pub insert_path : List Bool → A → BitNode A → BitNode A
  insert_path [] leaf (node zero_child one_child old) = node zero_child one_child (some leaf)
  insert_path (false ∷ bits) leaf (node absent one_child old) =
      node (present (insert_path bits leaf (node absent absent none))) one_child old
  insert_path (false ∷ bits) leaf (node (present n) one_child old) =
      node (present (insert_path bits leaf n)) one_child old
  insert_path (true ∷ bits) leaf (node zero_child absent old) =
      node zero_child (present (insert_path bits leaf (node absent absent none))) old
  insert_path (true ∷ bits) leaf (node zero_child (present n) old) =
      node zero_child (present (insert_path bits leaf n)) old

  unfoldable pub insert : List Bool → ℕ → A → BitNode A → BitNode A
  unfolding insert_path
  insert bits prefix leaf n = insert_path (take prefix bits) leaf n

  abbrev pub leaf_of : BitNode A → Option A
  leaf_of (node _ _ leaf) = leaf

  abbrev pub child : Bool → BitNode A → Child A
  child false (node zero_child _ _) = zero_child
  child true (node _ one_child _) = one_child

  -- `if node.leaf.is_some() { best = node.leaf }`
  abbrev pub prefer : Option A → Option A → Option A
  prefer none best = best
  prefer (some leaf) best = some leaf

  -- The loop of `lookup`.
  unfoldable pub lookup_from : List Bool → BitNode A → Option A → Option A
  lookup_from [] n best = best
  lookup_from (false ∷ bits) (node absent _ _) best = best
  lookup_from (false ∷ bits) (node (present n) _ _) best =
      lookup_from bits n (prefer (leaf_of n) best)
  lookup_from (true ∷ bits) (node _ absent _) best = best
  lookup_from (true ∷ bits) (node _ (present n) _) best =
      lookup_from bits n (prefer (leaf_of n) best)

  unfoldable pub lookup : List Bool → BitNode A → Option A
  unfolding lookup_from
  lookup bits n = lookup_from bits n (leaf_of n)

-- `(o >> i) & 1` for the bit `i` of an octet.
abbrev bit : ℕ → ℕ → Bool
bit o i = o / 2 ^ i % 2 == 1

-- `ipv4_bits` and `ipv6_bits`: the bits of each octet, the highest first.
unfoldable pub ip_bits : List ℕ → List Bool
ip_bits [] = []
ip_bits (o ∷ os) =
    bit o 7 ∷ bit o 6 ∷ bit o 5 ∷ bit o 4 ∷ bit o 3 ∷ bit o 2 ∷ bit o 1 ∷ bit o 0 ∷ ip_bits os
