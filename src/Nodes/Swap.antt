-- ===== src/Nodes/Swap.antt =====
-- What `replace_subscription_nodes` of nodes/manager.rs leaves under every id.
use network_client.Prelude.{
  ◌≡◌, refl, ap, ◌∙◌, arith, Option, some, List, [], ◌∷◌, filter, Text, text_eq, lookup, insert,
  lookup-insert, SvcResult, ok, err, ◌>>◌, if◌then◌else◌,
}
use network_client.Nodes.Model.{Node, validate}
use network_client.Nodes.Manager.{
  NodeManager, store_all, store_all_from, foreign, replace_subscription_nodes, finish_replace, list,
}

abbrev pub AllValid : List Node → Type 0
AllValid [] = Unit
AllValid (n ∷ ns) = (validate n ≡ ok tt) × AllValid ns

abbrev pub ids_of : List Node → List Text
ids_of [] = []
ids_of (n ∷ ns) = n.id ∷ ids_of ns

-- The last of the new nodes with the id, now of the subscription; else what was there.
unfoldable pub latest : Text → Text → List Node → Option Node → Option Node
latest sid j [] old = old
latest sid j (n ∷ ns) old =
    latest sid j ns (if text_eq n.id j then some (record n { subscription_id = sid }) else old)

-- The file after a write of the given list, or of none.
abbrev pub wrote : SvcResult (Unit {0}) → List Node → List Node → List Node
wrote (ok _) new old = new
wrote (err _) new old = old

owned : Text → Node → Node
owned sid n = record n { subscription_id = sid }

validate-owned : (sid : Text) (n : Node) → validate (owned sid n) ≡ validate n
unfolding validate owned
validate-owned sid n = refl

store_all_first :
    (sid : Text) (n : Node) (ns : List Node) (g : List (Text × Node))
    → validate n ≡ ok tt
    → store_all sid (n ∷ ns) g
      ≡ store_all_from
          (validate (owned sid n))
          (owned sid n)
          (store_all sid ns (insert n.id (owned sid n) g))
unfolding store_all owned
store_all_first sid n ns g valid = rw (validate-owned sid n ∙ valid, store_all) refl

store_all_from-ok :
    (checked : SvcResult (Unit {0})) (n : Node) (r : List (Text × Node) × SvcResult (List Text))
    (ids : List Text)
    → r.1 ≡ ok ids
    → (store_all_from checked n r).1 ≡ ok (n.id ∷ ids) × ((store_all_from checked n r).0 ≡ r.0)
unfolding store_all_from
store_all_from-ok checked n (g, ok found) ids e = (ground arith, refl)
store_all_from-ok checked n (g, err x) ids e = absurd (ground arith)

-- The loop stores every node, and says their ids in order.
store_all-latest :
    (sid : Text) (ns : List Node) (g : List (Text × Node))
    → AllValid ns
    → ((store_all sid ns g).1 ≡ ok (ids_of ns))
      × ((j : Text) → lookup j (store_all sid ns g).0 ≡ latest sid j ns (lookup j g))
unfolding latest store_all owned
store_all-latest sid [] g valid = (refl, λ j. refl)
store_all-latest sid (n ∷ ns) g (first, valid) =
    let own : Node = record n { subscription_id = sid } in
    let (said, found) = store_all-latest sid ns (insert n.id own g) valid in
    let (here, there) =
      store_all_from-ok (validate own) own (store_all sid ns (insert n.id own g)) (ids_of ns)
        said in
    let step = store_all_first sid n ns g first in
    (
      ap (λ r. r.1) step ∙ here,
      λ j.
          ap (λ r. lookup j r.0) step
          ∙ ap (lookup j) there
          ∙ found j
          ∙ ap (latest sid j ns) (lookup-insert n.id j own g),
    )

-- The swap of the nodes of a subscription, whether the file is written or not: in memory every id has the
-- last of the new nodes with that id, or what it had, unless that belonged to the subscription. Only a
-- successful write changes the file, and the answer is the ids, or the error of the write.
pub replace_subscription_nodes-latest :
    (written : SvcResult (Unit {0})) (sid : Text) (ns : List Node) (m : NodeManager)
    → AllValid ns
    → let r = replace_subscription_nodes written sid ns m in
      ((j : Text) → lookup j r.0.nodes ≡ latest sid j ns (lookup j (filter (foreign sid) m.nodes)))
      × (r.1 ≡ (written >> ok (ids_of ns)))
      × (r.0.file ≡ wrote written (list r.0) m.file)
unfolding replace_subscription_nodes list
replace_subscription_nodes-latest written sid ns m valid =
    let g = filter (foreign sid) m.nodes in
    let (said, found) = store_all-latest sid ns g valid in
    from written (store_all sid ns g) said found
  where
    from :
        (w : SvcResult (Unit {0})) (r : List (Text × Node) × SvcResult (List Text))
        → r.1 ≡ ok (ids_of ns)
        → ((j : Text) → lookup j r.0 ≡ latest sid j ns (lookup j (filter (foreign sid) m.nodes)))
        → let s = finish_replace w m r in
          ((j : Text)
            → lookup j s.0.nodes ≡ latest sid j ns (lookup j (filter (foreign sid) m.nodes)))
          × (s.1 ≡ (w >> ok (ids_of ns)))
          × (s.0.file ≡ wrote w (list s.0) m.file)
    from (ok u) (g, ok ids) e h = (h, e, refl)
    from (err x) (g, ok ids) e h = (h, refl, refl)
    from w (g, err x) e h = absurd (ground arith)
