-- ===== src/Routing/DomainTrie.antt =====
-- `M` and `DomainTrie` of service/network-service/src/routing/matcher.rs. The nodes are a vector, a
-- child is an index into it, and the root is 0. `nodes[cur]` is read with an empty node as the value
-- out of range, which no index of the trie is.
use network_client.Prelude.{
  ℕ, not, Option, none, some, List, [], ◌∷◌, ◌++◌, reverse, filter, length, set, get_or, Text,
  is_empty, split, to_ascii_lowercase, lookup, insert,
}
use network_client.Routing.Rule.{Action, Rule, effective_priority}

pub record M : Type 0 where
  pub rule_id : Text
  pub action : Action
  pub priority : ℕ

unfoldable pub from_rule : Rule → M
from_rule rule = record {
  rule_id = rule.id;
  action = rule.action;
  priority = effective_priority rule;
}

pub record LabelNode : Type 0 where
  pub children : List (Text × ℕ)
  pub leaf : Option M

abbrev pub DomainTrie : Type 0
DomainTrie = List LabelNode

abbrev pub new_node : LabelNode
new_node = record { children = []; leaf = none }

unfoldable pub new : DomainTrie
new = new_node ∷ []

-- `.split('.').filter(|l| !l.is_empty()).rev()` of the name in lower case.
unfoldable pub labels : Text → List Text
labels name = reverse (filter (λ l. not (is_empty l)) (split 46 (to_ascii_lowercase name)))

-- `nodes[cur].children.insert(label, id)`
abbrev pub add_child : ℕ → Text → ℕ → DomainTrie → DomainTrie
add_child cur label id nodes = set nodes cur (record (get_or nodes cur new_node) {
  children = insert label id (LabelNode.children (get_or nodes cur new_node));
})

-- The loop of `insert`, with the write of the leaf after it.
unfoldable pub insert_labels : List Text → ℕ → M → DomainTrie → DomainTrie
insert_labels [] cur m nodes = set nodes cur (record (get_or nodes cur new_node) { leaf = some m })
insert_labels (label ∷ rest) cur m nodes =
    elim (lookup label (LabelNode.children (get_or nodes cur new_node))) [
      | none ↦
          insert_labels rest (length nodes) m
            (add_child cur label (length nodes) (nodes ++ new_node ∷ []))
      | some id ↦ insert_labels rest id m nodes
    ]

unfoldable pub insert_suffix : Text → M → DomainTrie → DomainTrie
unfolding insert_labels
insert_suffix suffix m nodes = insert_labels (labels suffix) 0 m nodes

abbrev pub prefer : Option M → Option M → Option M
prefer none best = best
prefer (some leaf) best = some leaf

-- The loop of `lookup`.
unfoldable pub lookup_labels : List Text → ℕ → DomainTrie → Option M → Option M
lookup_labels [] cur nodes best = best
lookup_labels (label ∷ rest) cur nodes best =
    elim (lookup label (LabelNode.children (get_or nodes cur new_node))) [
      | none ↦ best
      | some id ↦
          lookup_labels rest id nodes (prefer (LabelNode.leaf (get_or nodes id new_node)) best)
    ]

unfoldable pub lookup_suffix : Text → DomainTrie → Option M
unfolding lookup_labels
lookup_suffix name nodes =
    lookup_labels (labels name) 0 nodes (LabelNode.leaf (get_or nodes 0 new_node))
