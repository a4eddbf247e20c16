-- ===== src/Routing/Arena.antt =====
-- The vector of nodes of the domain trie of service/network-service/src/routing/matcher.rs: its edges,
-- and how the growth of the vector and the write of a leaf change them.
use network_client.Prelude.{
  ℕ, zero, suc, ◌<◌, ◌≡◌, refl, ◌∙◌, ◌==◌, Option, none, some, List, [], ◌∷◌, ◌++◌, length, set,
  get_or, length-set, length-append, Text, text_eq, text_eq_iff, lookup, insert, lookup-insert,
  arith, if◌then◌else◌,
}
use network_client.Routing.DomainTrie.{M, LabelNode, DomainTrie, new_node, add_child}

get_or-set :
    {A : Type 0} (xs : List A) (i j : ℕ) (v d : A)
    → i < length xs
    → get_or (set xs i v) j d ≡ (if i == j then v else get_or xs j d)
get_or-set [] i j v d h = ground arith
get_or-set (x ∷ xs) zero zero v d h = refl
get_or-set (x ∷ xs) zero (suc j) v d h = ground arith
get_or-set (x ∷ xs) (suc i) zero v d h = ground arith
get_or-set (x ∷ xs) (suc i) (suc j) v d h = ground (arith, get_or-set xs i j v d)

get_or-append :
    {A : Type 0} (xs : List A) (j : ℕ) (d : A) → get_or (xs ++ d ∷ []) j d ≡ get_or xs j d
get_or-append [] zero d = refl
get_or-append [] (suc j) d = refl
get_or-append (x ∷ xs) zero d = refl
get_or-append (x ∷ xs) (suc j) d = get_or-append xs j d

abbrev pub at : DomainTrie → ℕ → LabelNode
at nodes cur = get_or nodes cur new_node

-- The child of a node under a label.
unfoldable pub edge : DomainTrie → ℕ → Text → Option ℕ
edge nodes cur label = lookup label (LabelNode.children (at nodes cur))

-- The vector with a new node, the child of `cur` under `label`.
unfoldable pub grow : ℕ → Text → DomainTrie → DomainTrie
grow cur label nodes = add_child cur label (length nodes) (nodes ++ new_node ∷ [])

pub length-grow :
    (cur : ℕ) (label : Text) (nodes : DomainTrie)
    → length (grow cur label nodes) ≡ suc (length nodes)
unfolding grow
length-grow cur label nodes =
    length-set (nodes ++ new_node ∷ []) cur _ ∙ length-append nodes (new_node ∷ []) ∙ omega arith

edge-grow :
    (cur c : ℕ) (label k : Text) (nodes : DomainTrie)
    → cur < length nodes
    → edge (grow cur label nodes) c k ≡ (
        if cur == c
        then (if text_eq label k then some (length nodes) else edge nodes c k)
        else edge nodes c k)
unfolding edge grow
edge-grow cur c label k nodes h = ground (
  arith,
  length-append nodes (new_node ∷ []),
  get_or-append nodes cur new_node,
  get_or-append nodes c new_node,
  get_or-set (nodes ++ new_node ∷ []) cur c
      (record (at (nodes ++ new_node ∷ []) cur) {
        children =
            insert label (length nodes) (LabelNode.children (at (nodes ++ new_node ∷ []) cur));
      })
      new_node,
  lookup-insert label k (length nodes) (LabelNode.children (at nodes cur)),
)

-- Every child is a node of the vector.
unfoldable pub IsBounded : DomainTrie → Type 0
IsBounded nodes = (c : ℕ) (k : Text) (id : ℕ) → edge nodes c k ≡ some id → id < length nodes

-- Every edge of the first trie is one of the second.
unfoldable pub Extends : DomainTrie → DomainTrie → Type 0
Extends nodes later =
    (c : ℕ) (k : Text) (id : ℕ) → edge nodes c k ≡ some id → edge later c k ≡ some id

-- The path from a node ends in a node with this leaf.
unfoldable pub Reaches : DomainTrie → ℕ → List Text → M → Type 0
Reaches nodes cur [] m = LabelNode.leaf (at nodes cur) ≡ some m
Reaches nodes cur (label ∷ rest) m =
    (id : ℕ) × (edge nodes cur label ≡ some id) × Reaches nodes id rest m

pub grow-IsBounded :
    (cur : ℕ) (label : Text) (nodes : DomainTrie)
    → cur < length nodes
    → IsBounded nodes
    → IsBounded (grow cur label nodes)
unfolding IsBounded
grow-IsBounded cur label nodes h b c k id e =
    ground (arith, e, h, b c k id, length-grow cur label nodes, edge-grow cur c label k nodes h)

pub grow-Extends :
    (cur : ℕ) (label : Text) (nodes : DomainTrie)
    → cur < length nodes
    → edge nodes cur label ≡ none
    → Extends nodes (grow cur label nodes)
unfolding Extends
grow-Extends cur label nodes h fresh c k id e =
    ground (arith, e, h, fresh, text_eq_iff label k, edge-grow cur c label k nodes h)

pub edge-grow_new :
    (cur : ℕ) (label : Text) (nodes : DomainTrie)
    → cur < length nodes
    → edge (grow cur label nodes) cur label ≡ some (length nodes)
edge-grow_new cur label nodes h =
    ground (arith, text_eq_iff label label, edge-grow cur cur label label nodes h)

-- The write of the leaf.
unfoldable pub put_leaf : ℕ → M → DomainTrie → DomainTrie
put_leaf cur m nodes = set nodes cur (record (at nodes cur) { leaf = some m })

pub edge-put_leaf :
    (cur c : ℕ) (m : M) (k : Text) (nodes : DomainTrie)
    → cur < length nodes
    → edge (put_leaf cur m nodes) c k ≡ edge nodes c k
unfolding edge put_leaf
edge-put_leaf cur c m k nodes h =
    ground (arith, h, get_or-set nodes cur c (record (at nodes cur) { leaf = some m }) new_node)

pub leaf-put_leaf :
    (cur : ℕ) (m : M) (nodes : DomainTrie)
    → cur < length nodes
    → LabelNode.leaf (at (put_leaf cur m nodes) cur) ≡ some m
unfolding put_leaf
leaf-put_leaf cur m nodes h =
    ground (arith, h, get_or-set nodes cur cur (record (at nodes cur) { leaf = some m }) new_node)
