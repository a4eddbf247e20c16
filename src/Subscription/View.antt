-- ===== src/Subscription/View.antt =====
-- What the client is shown of the subscriptions: `mask_url` of service/network-service/src/common.rs, and
-- `to_view` and `list_views` of subscription/manager.rs.
pub mod Masked
use network_client.Prelude.{
  ℕ, Option, none, some, List, [], ◌∷◌, ◌++◌, map, if◌then◌else◌, Text, t, split_once,
  split_once_text, Json, json_object, json_array, json_index, as_text, SvcResult, ok, err,
}
use network_client.Nodes.Manager.{text_leb}
use network_client.Subscription.Manager.{
  Subscription, SubscriptionManager, Secrets, UpdatePolicy, values,
}

-- `rest`, up to its first `/`
unfoldable pub site : Text → Option (Text × Text) → Text
site rest none = rest
site rest (some (before, after)) = before

unfoldable pub masked : Option (Text × Text) → Text
unfolding site split_once
masked none = t "****"
masked (some (scheme, rest)) = scheme ++ t "://" ++ site rest (split_once b'/' rest) ++ t "/****"

unfoldable pub mask_url : Text → Text
unfolding masked split_once_text
mask_url raw = masked (split_once_text (t "://") raw)

unfoldable pub shown_url : SvcResult Text → Text
unfolding mask_url
shown_url (ok url) = mask_url url
shown_url (err e) = t "****"

update_value : UpdatePolicy → Json
update_value u = json_object (
    (t "interval_secs", Json.number u.interval_secs)
    ∷ (t "last_updated", Json.number u.last_updated)
    ∷ [])

-- The view, for the URL that it shows.
unfoldable pub view : Subscription → Text → Json
unfolding update_value
view s url = json_object (
    (t "id", Json.string s.id)
    ∷ (t "name", Json.string s.name)
    ∷ (t "url", Json.string url)
    ∷ (t "enabled", Json.boolean s.enabled)
    ∷ (t "update", update_value s.update)
    ∷ (t "node_ids", json_array (map (λ id. Json.string id) s.node_ids))
    ∷ [])

unfoldable pub to_view : Secrets → Subscription → Json
unfolding view shown_url
to_view secrets s = view s (shown_url (secrets.unprotect s.url))

text_or_none : Option Text → Text
text_or_none none = []
text_or_none (some s) = s

insert_by_name : Json → List Json → List Json
unfolding text_leb text_or_none json_index
insert_by_name v [] = v ∷ []
insert_by_name v (w ∷ ws) =
    let after = insert_by_name v ws in
    if text_leb (text_or_none (as_text (json_index (t "name") v)))
      (text_or_none (as_text (json_index (t "name") w)))
    then v ∷ w ∷ ws
    else w ∷ after

-- `sort_by`, which is stable
unfoldable pub sort_by_name : List Json → List Json
unfolding insert_by_name
sort_by_name [] = []
sort_by_name (v ∷ vs) = insert_by_name v (sort_by_name vs)

unfoldable pub list_views : Secrets → SubscriptionManager → List Json
unfolding to_view sort_by_name
list_views secrets m = sort_by_name (map (to_view secrets) (values m.items))
