-- ===== src/Nodes/Keys.antt =====
-- The keys of the table of nodes/manager.rs.
use network_client.Prelude.{
  ◌≡◌, refl, Bool, some, List, [], ◌∷◌, Text, lookup, insert, remove, filter, ℤ, SvcResult, ok,
  arith, text_eq_iff,
}
use network_client.Nodes.Model.{Node}
use network_client.Nodes.Manager.{
  NodeManager, get, persist, stamped, add, update, delete, select, store_all, foreign,
  replace_subscription_nodes,
}

abbrev pub IsKeyed : List (Text × Node) → Type 0
IsKeyed [] = Unit
IsKeyed ((k, n) ∷ g) = (n.id ≡ k) × IsKeyed g

insert-IsKeyed : (n : Node) (g : List (Text × Node)) → IsKeyed g → IsKeyed (insert n.id n g)
unfolding insert
insert-IsKeyed n [] h = (refl, tt)
insert-IsKeyed n ((k, m) ∷ g) h = ground (arith, insert-IsKeyed n g h.1)

remove-IsKeyed : (id : Text) (g : List (Text × Node)) → IsKeyed g → IsKeyed (remove id g)
unfolding remove
remove-IsKeyed id [] h = tt
remove-IsKeyed id ((k, m) ∷ g) h = ground (arith, remove-IsKeyed id g h.1)

filter-IsKeyed :
    (p : Text × Node → Bool) (g : List (Text × Node)) → IsKeyed g → IsKeyed (filter p g)
filter-IsKeyed p [] h = tt
filter-IsKeyed p ((k, m) ∷ g) h = ground (arith, filter-IsKeyed p g h.1)

store_all-IsKeyed :
    (sid : Text) (ns : List Node) (g : List (Text × Node))
    → IsKeyed g
    → IsKeyed (store_all sid ns g).0
unfolding store_all
store_all-IsKeyed sid [] g h = h
store_all-IsKeyed sid (n ∷ ns) g h =
    let n' : Node = record n { subscription_id = sid } in
    ground (arith, store_all-IsKeyed sid ns (insert n.id n' g) (insert-IsKeyed n' g h))

-- The calls that change the table, with the answers of their writes.
pub data Call : Type 0 where
  adds : SvcResult (Unit {0}) → Text → ℤ → Node → Call
  updates : SvcResult (Unit {0}) → Node → Call
  deletes : SvcResult (Unit {0}) → Text → Call
  selects : Text → Call
  replaces : SvcResult (Unit {0}) → Text → List Node → Call

unfoldable pub call : NodeManager → Call → NodeManager
call m (adds written fresh now n) = (add written fresh now n m).0
call m (updates written n) = (update written n m).0
call m (deletes written id) = (delete written id m).0
call m (selects id) = (select id m).0
call m (replaces written sid ns) = (replace_subscription_nodes written sid ns m).0

unfoldable pub calls : NodeManager → List Call → NodeManager
calls m [] = m
calls m (c ∷ cs) = calls (call m c) cs

call-IsKeyed : (m : NodeManager) (c : Call) → IsKeyed m.nodes → IsKeyed (call m c).nodes
unfolding call add update delete select replace_subscription_nodes persist
call-IsKeyed m (adds written fresh now n) h =
    ground (arith, insert-IsKeyed (stamped fresh now n) m.nodes h)
call-IsKeyed m (updates written n) h = ground (arith, insert-IsKeyed n m.nodes h)
call-IsKeyed m (deletes written id) h = ground (arith, remove-IsKeyed id m.nodes h)
call-IsKeyed m (selects id) h = ground arith
call-IsKeyed m (replaces written sid ns) h = ground (
  arith,
  store_all-IsKeyed sid ns (filter (foreign sid) m.nodes) (filter-IsKeyed (foreign sid) m.nodes h),
)

calls-IsKeyed : (m : NodeManager) (cs : List Call) → IsKeyed m.nodes → IsKeyed (calls m cs).nodes
unfolding calls
calls-IsKeyed m [] h = h
calls-IsKeyed m (c ∷ cs) h = calls-IsKeyed (call m c) cs (call-IsKeyed m c h)

lookup_id :
    (id : Text) (n : Node) (g : List (Text × Node)) → IsKeyed g → lookup id g ≡ some n → n.id ≡ id
unfolding lookup
lookup_id id n [] h e = ground arith
lookup_id id n ((k, m) ∷ g) h e = ground (arith, text_eq_iff k id, lookup_id id n g h.1)

-- From a table whose keys are the ids of its nodes, any sequence of calls, refused ones and those
-- whose write fails included, leads to a table in which `get` returns only a node of the id asked for.
pub get-calls :
    (m : NodeManager) (cs : List Call) (id : Text) (n : Node)
    → IsKeyed m.nodes
    → get id (calls m cs) ≡ ok n
    → n.id ≡ id
unfolding get
get-calls m cs id n h e = ground (arith, lookup_id id n (calls m cs).nodes (calls-IsKeyed m cs h))
