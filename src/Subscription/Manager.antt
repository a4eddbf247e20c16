-- ===== src/Subscription/Manager.antt =====
-- service/network-service/src/subscription/manager.rs: the state, and the operations but for the
-- refreshes. `written` is the answer of `atomic_write_json`; what DPAPI does to a URL is a
-- parameter, as is the crates' part of the parsers. The interval of an update is an integer of 64
-- bits, a time the milliseconds of the clock.
use network_client.Prelude.{
  ℕ, Bool, ◌||◌, Option, none, some, List, [], ◌∷◌, ◌++◌, ltb, if◌then◌else◌, Text, t, is_empty,
  trim, lookup, insert, remove, SvcResult, ok, err, config_invalid, not_found,
}
use network_client.Nodes.Manager.{NodeManager, replace_subscription_nodes}

pub record UpdatePolicy : Type 0 where
  pub interval_secs : ℕ
  pub last_updated : ℕ

pub record Subscription : Type 0 where
  pub id : Text
  pub name : Text
  pub url : Text
  pub enabled : Bool
  pub update : UpdatePolicy
  pub node_ids : List Text

pub record SubscriptionInput : Type 0 where
  pub name : Text
  pub url : Text
  pub enabled : Bool
  pub interval_secs : ℕ  -- 0 for a number that is not positive

-- `SUBSCRIPTION_UPDATED` with the count of nodes and `SUBSCRIPTION_FAILED` with the error.
pub data Event : Type 0 where
  updated : Text → Text → ℕ → Event
  failed : Text → Text → Text → Event

pub record SubscriptionManager : Type 0 where
  pub items : List (Text × Subscription)
  pub in_flight : List Text
  pub file : List Subscription  -- subscriptions.json
  pub nodes : NodeManager
  pub events : List Event  -- the newest first

pub record Secrets : Type 0 where
  pub protect : Text → SvcResult Text
  pub unprotect : Text → SvcResult Text

abbrev pub values : List (Text × Subscription) → List Subscription
values [] = []
values ((_, s) ∷ g) = s ∷ values g

unfoldable pub persist :
    SvcResult (Unit {0}) → SubscriptionManager → SubscriptionManager × SvcResult (Unit {0})
persist (ok _) m = (record m { file = values m.items }, ok tt)
persist (err e) m = (m, err e)

-- A step that has stored something, then the write of the file.
unfoldable pub with_value {ℓ} :
    {A : Type ℓ}
    → A
    → SubscriptionManager × SvcResult (Unit {0})
    → SubscriptionManager × SvcResult A
with_value a (m, ok _) = (m, ok a)
with_value a (m, err e) = (m, err e)

add_from :
    SvcResult (Unit {0})
    → Text
    → SubscriptionInput
    → SubscriptionManager
    → SvcResult Text
    → SubscriptionManager × SvcResult Subscription
unfolding persist with_value
add_from written fresh input m (err e) = (m, err e)
add_from written fresh input m (ok url) =
    let sub : Subscription = record {
      id = fresh;
      name = input.name;
      url = url;
      enabled = input.enabled;
      update = record {
        interval_secs = if ltb 0 input.interval_secs then input.interval_secs else 86_400;
        last_updated = 0;
      };
      node_ids = [];
    } in
    with_value sub (persist written (record m { items = insert fresh sub m.items }))

-- `fresh` is the id made from a new UUID.
unfoldable pub add :
    Secrets
    → SvcResult (Unit {0})
    → Text
    → SubscriptionInput
    → SubscriptionManager
    → SubscriptionManager × SvcResult Subscription
unfolding add_from
add secrets written fresh input m =
    if is_empty (trim input.name) || is_empty (trim input.url)
    then (m, err (config_invalid (t "subscription name/url required")))
    else add_from written fresh input m (secrets.protect (trim input.url))

pub record Fields : Type 0 where
  pub name : Option Text
  pub url : Option Text
  pub enabled : Option Bool
  pub interval_secs : Option ℕ

abbrev set_name : Option Text → Subscription → Subscription
set_name none s = s
set_name (some n) s = record s { name = n }

abbrev set_enabled : Option Bool → Subscription → Subscription
set_enabled none s = s
set_enabled (some e) s = record s { enabled = e }

abbrev set_interval : Option ℕ → Subscription → Subscription
set_interval none s = s
set_interval (some i) s =
    if ltb 0 i then record s { update = record (s.update) { interval_secs = i } } else s

-- The new ciphertext, or the old one.
new_url : Secrets → Option Text → Subscription → SvcResult Text
new_url secrets none s = ok s.url
new_url secrets (some u) s = if is_empty (trim u) then ok s.url else secrets.protect (trim u)

-- The name is set before the URL can fail, and stays set.
write_fields :
    SvcResult (Unit {0})
    → Text
    → Fields
    → Subscription
    → SubscriptionManager
    → SvcResult Text
    → SubscriptionManager × SvcResult (Unit {0})
unfolding persist
write_fields written id f named m (err e) = (record m { items = insert id named m.items }, err e)
write_fields written id f named m (ok url) =
    let sub = set_interval f.interval_secs (set_enabled f.enabled (record named { url = url })) in
    persist written (record m { items = insert id sub m.items })

update_found :
    Secrets
    → SvcResult (Unit {0})
    → Text
    → Fields
    → SubscriptionManager
    → Option Subscription
    → SubscriptionManager × SvcResult (Unit {0})
unfolding write_fields new_url
update_found secrets written id f m none = (m, err (not_found (t "subscription " ++ id)))
update_found secrets written id f m (some s) =
    write_fields written id f (set_name f.name s) m (new_url secrets f.url s)

unfoldable pub update_fields :
    Secrets
    → SvcResult (Unit {0})
    → Text
    → Fields
    → SubscriptionManager
    → SubscriptionManager × SvcResult (Unit {0})
unfolding update_found
update_fields secrets written id f m = update_found secrets written id f m (lookup id m.items)

-- `nodes_written` is the answer of the write inside the node manager, whose failure is ignored.
delete_found :
    SvcResult (Unit {0})
    → SvcResult (Unit {0})
    → Text
    → SubscriptionManager
    → Option Subscription
    → SubscriptionManager × SvcResult (Unit {0})
unfolding persist replace_subscription_nodes
delete_found nodes_written written id m none = (m, err (not_found (t "subscription " ++ id)))
delete_found nodes_written written id m (some _) = persist written (record m {
  items = remove id m.items;
  nodes = (replace_subscription_nodes nodes_written id [] m.nodes).0;
})

unfoldable pub delete :
    SvcResult (Unit {0})
    → SvcResult (Unit {0})
    → Text
    → SubscriptionManager
    → SubscriptionManager × SvcResult (Unit {0})
unfolding delete_found
delete nodes_written written id m = delete_found nodes_written written id m (lookup id m.items)
