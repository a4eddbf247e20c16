-- ===== src/Nodes/Manager.antt =====
-- `NodeManager` (service/network-service/src/nodes/manager.rs): the nodes by their id, the selection
-- and the file. `written` is the answer of `atomic_write_json`. The table of run-time statistics,
-- whose numbers are floats, is not part of this state: only probes write it, and `delete`, which
-- drops the entry of the node.
use network_client.Prelude.{
  Bool, true, false, not, ◌&&◌, ◌||◌, Option, none, some, List, [], ◌∷◌, Text, text_eq, is_empty,
  lookup, insert, remove, filter, ℤ, pos, negsuc, SvcResult, ok, err, node_not_found, ltb, ◌==◌,
  if◌then◌else◌,
}
use network_client.Nodes.Model.{Node, validate}

pub record NodeManager : Type 0 where
  pub nodes : List (Text × Node)
  pub selected : Option Text
  pub file : List Node

-- The order of `String`: by code point, a prefix first.
unfoldable pub text_leb : Text → Text → Bool
text_leb [] _ = true
text_leb (_ ∷ _) [] = false
text_leb (a ∷ s) (b ∷ r) = ltb a b || ((a == b) && text_leb s r)

insert_by_name : Node → List Node → List Node
insert_by_name n [] = n ∷ []
insert_by_name n (m ∷ ms) = if text_leb n.name m.name then n ∷ m ∷ ms else m ∷ insert_by_name n ms

sort_by_name : List (Text × Node) → List Node
sort_by_name [] = []
sort_by_name ((_, n) ∷ ns) = insert_by_name n (sort_by_name ns)

unfoldable pub list : NodeManager → List Node
unfolding text_leb insert_by_name sort_by_name
list m = sort_by_name m.nodes

get_from : Text → Option Node → SvcResult Node
get_from id (some n) = ok n
get_from id none = err (node_not_found id)

unfoldable pub get : Text → NodeManager → SvcResult Node
unfolding get_from
get id m = get_from id (lookup id m.nodes)

abbrev is_some {ℓ} : {A : Type ℓ} → Option A → Bool
is_some none = false
is_some (some _) = true

-- A refused write leaves the file as it was, and the memory as the operation made it.
persist_from : SvcResult (Unit {0}) → NodeManager → NodeManager × SvcResult (Unit {0})
persist_from (ok _) m = (record m { file = list m }, ok tt)
persist_from (err e) m = (m, err e)

unfoldable pub persist : SvcResult (Unit {0}) → NodeManager → NodeManager × SvcResult (Unit {0})
unfolding persist_from
persist written m = persist_from written m

with_value {ℓ} : {A : Type ℓ} → A → NodeManager × SvcResult (Unit {0}) → NodeManager × SvcResult A
with_value a (m, ok _) = (m, ok a)
with_value a (m, err e) = (m, err e)

abbrev is_zero : ℤ → Bool
is_zero (pos n) = n == 0
is_zero (negsuc _) = false

store_node : SvcResult (Unit {0}) → Node → NodeManager → NodeManager × SvcResult Node
unfolding persist with_value
store_node written n m = with_value n (persist written (record m { nodes = insert n.id n m.nodes }))

add_from :
    SvcResult (Unit {0}) → SvcResult (Unit {0}) → Node → NodeManager → NodeManager × SvcResult Node
unfolding store_node
add_from (ok _) written n m = store_node written n m
add_from (err e) written n m = (m, err e)

-- The id and the date of a new node: `fresh` is the id made from a new UUID, `now` the clock.
unfoldable pub stamped : Text → ℤ → Node → Node
stamped fresh now n = record n {
  id = if is_empty n.id then fresh else n.id;
  created_at = if is_zero n.created_at then now else n.created_at;
}

unfoldable pub add :
    SvcResult (Unit {0}) → Text → ℤ → Node → NodeManager → NodeManager × SvcResult Node
unfolding add_from
add written fresh now n m = add_from (validate n) written (stamped fresh now n) m

update_from :
    SvcResult (Unit {0}) → SvcResult (Unit {0}) → Node → NodeManager → NodeManager × SvcResult Node
unfolding store_node
update_from (ok _) written n m =
    if is_some (lookup n.id m.nodes) then store_node written n m else (m, err (node_not_found n.id))
update_from (err e) written n m = (m, err e)

unfoldable pub update : SvcResult (Unit {0}) → Node → NodeManager → NodeManager × SvcResult Node
unfolding update_from
update written n m = update_from (validate n) written n m

deselect : Text → Option Text → Option Text
deselect id none = none
deselect id (some s) = if text_eq s id then none else some s

unfoldable pub delete :
    SvcResult (Unit {0}) → Text → NodeManager → NodeManager × SvcResult (Unit {0})
unfolding persist deselect
delete written id m =
    if is_some (lookup id m.nodes)
    then persist written (record m { nodes = remove id m.nodes; selected = deselect id m.selected })
    else (m, err (node_not_found id))

unfoldable pub select : Text → NodeManager → NodeManager × SvcResult (Unit {0})
select id m =
    if is_some (lookup id m.nodes)
    then (record m { selected = some id }, ok tt)
    else (m, err (node_not_found id))

-- The loop of `replace_subscription_nodes`: the ids in order, or the first refusal.
unfoldable pub store_all_from :
    SvcResult (Unit {0})
    → Node
    → List (Text × Node) × SvcResult (List Text)
    → List (Text × Node) × SvcResult (List Text)
store_all_from checked n (g, ok ids) = (g, ok (n.id ∷ ids))
store_all_from checked n (g, err e) = (g, err e)

unfoldable pub store_all :
    Text → List Node → List (Text × Node) → List (Text × Node) × SvcResult (List Text)
unfolding store_all_from
store_all sid [] g = (g, ok [])
store_all sid (n ∷ ns) g =
    let n' : Node = record n { subscription_id = sid } in
    let rest = store_all_from (validate n') n' (store_all sid ns (insert n'.id n' g)) in
    elim (validate n') [ ok _ ↦ rest | err e ↦ (g, err e) ]

unfoldable pub finish_replace :
    SvcResult (Unit {0})
    → NodeManager
    → List (Text × Node) × SvcResult (List Text)
    → NodeManager × SvcResult (List Text)
unfolding persist with_value
finish_replace written m (g, ok ids) = with_value ids (persist written (record m { nodes = g }))
finish_replace written m (g, err e) = (record m { nodes = g }, err e)

abbrev pub foreign : Text → Text × Node → Bool
foreign sid e = not (text_eq e.1.subscription_id sid)

unfoldable pub replace_subscription_nodes :
    SvcResult (Unit {0}) → Text → List Node → NodeManager → NodeManager × SvcResult (List Text)
unfolding finish_replace store_all
replace_subscription_nodes written sid incoming m =
    finish_replace written m (store_all sid incoming (filter (foreign sid) m.nodes))
