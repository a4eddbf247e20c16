-- ===== src/Routing/Suffix.antt =====
-- What the domain trie of service/network-service/src/routing/matcher.rs finds again.
use network_client.Prelude.{
  ℕ, zero, suc, ◌≤◌, ◌<◌, ◌≡◌, refl, sym, ap, ◌∙◌, Option, none, some, List, [], ◌∷◌, length,
  length-set, Text, lookup, arith, Option-cases, inl, inr,
}
use network_client.Routing.DomainTrie.{
  M, LabelNode, DomainTrie, new, labels, insert_labels, insert_suffix, prefer, lookup_labels,
  lookup_suffix,
}
use network_client.Routing.Arena.{
  at, edge, grow, IsBounded, Extends, Reaches, put_leaf, length-grow, grow-IsBounded, grow-Extends,
  edge-grow_new, edge-put_leaf, leaf-put_leaf,
}

-- What an insertion below a node makes of the trie.
record Inserted (labels : List Text) (cur : ℕ) (m : M) (nodes later : DomainTrie) : Type 0 where
  bounded : IsBounded later
  longer : length nodes ≤ length later
  extends : Extends nodes later
  reaches : Reaches later cur labels m

insert_labels-Inserted :
    (labels : List Text) (cur : ℕ) (m : M) (nodes : DomainTrie)
    → cur < length nodes
    → IsBounded nodes
    → Inserted labels cur m nodes (insert_labels labels cur m nodes)
unfolding insert_labels IsBounded Extends Reaches put_leaf edge grow
insert_labels-Inserted [] cur m nodes h b = record {
  bounded = λ c k id e. ground (
    arith,
    length-set nodes cur (record (at nodes cur) { leaf = some m }),
    b c k id,
    e,
    edge-put_leaf cur c m k nodes h,
  );
  longer = ground (arith, length-set nodes cur (record (at nodes cur) { leaf = some m }));
  extends = λ c k id e. edge-put_leaf cur c m k nodes h ∙ e;
  reaches = leaf-put_leaf cur m nodes h;
}
insert_labels-Inserted (label ∷ rest) cur m nodes h b = elim (Option-cases (edge nodes cur label)) [
  | inl fresh ↦
      rw (fresh, insert_labels)
        (let i =
            insert_labels-Inserted rest (length nodes) m (grow cur label nodes)
              (omega (arith, length-grow cur label nodes)) (grow-IsBounded cur label nodes h b) in
          record {
            bounded = i.bounded;
            longer = omega (arith, i.longer, length-grow cur label nodes);
            extends = λ c k id e. i.extends c k id (grow-Extends cur label nodes h fresh c k id e);
            reaches = (
              length nodes,
              i.extends cur label (length nodes) (edge-grow_new cur label nodes h),
              i.reaches,
            );
          })
  | inr (id, known) ↦
      rw (known, insert_labels)
        (let i = insert_labels-Inserted rest id m nodes (b cur label id known) b in
          record {
            bounded = i.bounded;
            longer = i.longer;
            extends = i.extends;
            reaches = (id, i.extends cur label id known, i.reaches);
          })
]

-- A path that reaches a leaf is the best match of its own labels.
lookup_labels-Reaches :
    (labels : List Text) (cur : ℕ) (nodes : DomainTrie) (best : Option M) (m : M)
    → Reaches nodes cur labels m
    → lookup_labels labels cur nodes (prefer (LabelNode.leaf (at nodes cur)) best) ≡ some m
unfolding lookup_labels Reaches edge
lookup_labels-Reaches [] cur nodes best m h = rw h refl
lookup_labels-Reaches (label ∷ rest) cur nodes best m (id, e, h) =
    rw (e, lookup_labels)
      (lookup_labels-Reaches rest id nodes (prefer (LabelNode.leaf (at nodes cur)) best) m h)

prefer-none : (a : Option M) → prefer a none ≡ a
prefer-none none = refl
prefer-none (some m) = refl

-- Suffixes inserted one after the other.
unfoldable pub insert_each : List (Text × M) → DomainTrie → DomainTrie
insert_each [] nodes = nodes
insert_each ((suffix, m) ∷ rest) nodes = insert_each rest (insert_suffix suffix m nodes)

record IsTrie (nodes : DomainTrie) : Type 0 where
  bounded : IsBounded nodes
  root : 0 < length nodes

insert_suffix-IsTrie :
    (suffix : Text) (m : M) (nodes : DomainTrie)
    → IsTrie nodes
    → IsTrie (insert_suffix suffix m nodes)
unfolding insert_suffix
insert_suffix-IsTrie suffix m nodes h =
    let i = insert_labels-Inserted (labels suffix) 0 m nodes h.root h.bounded in
    record { bounded = i.bounded; root = omega (arith, i.longer, h.root) }

insert_each-IsTrie :
    (entries : List (Text × M)) (nodes : DomainTrie)
    → IsTrie nodes
    → IsTrie (insert_each entries nodes)
unfolding insert_each
insert_each-IsTrie [] nodes h = h
insert_each-IsTrie ((suffix, m) ∷ rest) nodes h =
    insert_each-IsTrie rest (insert_suffix suffix m nodes) (insert_suffix-IsTrie suffix m nodes h)

edge-new : (c : ℕ) (k : Text) → edge new c k ≡ none
unfolding new edge lookup
edge-new zero k = refl
edge-new (suc c) k = refl

new-IsTrie : IsTrie new
unfolding new IsBounded
new-IsTrie = record { bounded = λ c k id e. ground (arith, e, edge-new c k); root = omega arith }

-- After any insertions into the empty trie, a suffix that is inserted is found by every name with its
-- labels, in upper or lower case and with or without empty labels, and its own match is the best one.
pub lookup_suffix-insert_suffix :
    (entries : List (Text × M)) (suffix name : Text) (m : M)
    → labels name ≡ labels suffix
    → lookup_suffix name (insert_suffix suffix m (insert_each entries new)) ≡ some m
unfolding lookup_suffix insert_suffix
lookup_suffix-insert_suffix entries suffix name m same =
    let nodes = insert_each entries new in
    let h = insert_each-IsTrie entries new new-IsTrie in
    let i = insert_labels-Inserted (labels suffix) 0 m nodes h.root h.bounded in
    let later = insert_labels (labels suffix) 0 m nodes in
    rw same (
      ap (lookup_labels (labels suffix) 0 later) (sym (prefer-none (LabelNode.leaf (at later 0))))
      ∙ lookup_labels-Reaches (labels suffix) 0 later none m i.reaches)
