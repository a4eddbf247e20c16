-- ===== src/Subscription/Refresh.antt =====
-- The refreshes of service/network-service/src/subscription/manager.rs: the pipeline of one, the guard
-- against two of the same subscription, and the round over all that are due.
pub mod Outcome
pub mod Swap
pub mod Nameless
use network_client.Prelude.{
  ℕ, ◌*◌, ◌-◌, ◌%◌, ◌^◌, ◌==◌, max, min, Bool, true, false, not, ◌&&◌, ◌||◌, Option, none, some,
  List, [], ◌∷◌, ◌++◌, filter, any, length, leb, if◌then◌else◌, Text, t, text_eq, is_empty, lookup,
  insert, SvcResult, ok, err, SvcError, config_invalid, not_found, already_running, subscription,
  to_string, ◌>>=◌, ◌>>◌,
}
use network_client.Nodes.Model.{Node, validate}
use network_client.Nodes.Manager.{NodeManager, replace_subscription_nodes}
use network_client.Subscription.Crates.{Crates}
use network_client.Subscription.Parser.{parse_all}
use network_client.Subscription.Decoder.{decode_body}
use network_client.Subscription.Manager.{
  Subscription, SubscriptionManager, Secrets, Event, updated, failed, values, persist, with_value,
}

-- What the outside answers to one refresh: the download, the two writes and the clock.
pub record RefreshAnswers : Type 0 where
  pub fetch : Text → SvcResult Text
  pub nodes_written : SvcResult (Unit {0})
  pub written : SvcResult (Unit {0})
  pub now : ℕ

check_each : List Node → SvcResult (Unit {0})
unfolding validate
check_each [] = ok tt
check_each (n ∷ ns) = validate n >> check_each ns

-- The text that `validate` returns, which is wrapped in `ConfigInvalid` here.
reason : SvcError → Text
unfolding to_string
reason (config_invalid s) = s
reason e = to_string e

-- `map_err(SvcError::Subscription)`
subscription_error : SvcResult (Unit {0}) → SvcResult (Unit {0})
unfolding reason
subscription_error (ok _) = ok tt
subscription_error (err e) = err (subscription (reason e))

parsed : Crates → List Text → SvcResult (List Node)
unfolding parse_all check_each subscription_error
parsed k lines =
    let nodes = (parse_all k lines).0 in
    if is_empty lines
    then err (subscription (t "no parseable node URIs in subscription"))
    else if is_empty nodes
    then err (subscription (t "all subscription lines failed to parse"))
    else subscription_error (check_each nodes) >> ok nodes

-- DOWNLOAD, DECODE, PARSE and VALIDATE, which store nothing.
unfoldable pub fetch_nodes :
    Secrets → Crates → RefreshAnswers → Subscription → SvcResult (List Node)
unfolding parsed decode_body
fetch_nodes secrets k a sub =
    secrets.unprotect sub.url >>= λ url. a.fetch url >>= λ body. parsed k (decode_body k body)

stamp :
    RefreshAnswers
    → Text
    → List Text
    → Option Subscription
    → SubscriptionManager
    → SubscriptionManager
stamp a id node_ids none m = m
stamp a id node_ids (some s) m = record m {
  items =
      insert id
        (record s { node_ids = node_ids; update = record (s.update) { last_updated = a.now } })
        m.items;
}

-- After the swap in the node manager: the metadata, and the count as a u32.
stored :
    RefreshAnswers
    → Text
    → SubscriptionManager
    → NodeManager × SvcResult (List Text)
    → SubscriptionManager × SvcResult ℕ
unfolding stamp persist with_value
stored a id m (nodes, err e) = (record m { nodes = nodes }, err e)
stored a id m (nodes, ok node_ids) =
    with_value (length node_ids % 2 ^ 32)
      (persist a.written (stamp a id node_ids (lookup id m.items) (record m { nodes = nodes })))

unfoldable pub store :
    RefreshAnswers
    → Text
    → SubscriptionManager
    → SvcResult (List Node)
    → SubscriptionManager × SvcResult ℕ
unfolding stored replace_subscription_nodes
store a id m (err e) = (m, err e)
store a id m (ok nodes) =
    stored a id m (replace_subscription_nodes a.nodes_written id nodes m.nodes)

inner_found :
    Secrets
    → Crates
    → RefreshAnswers
    → Text
    → SubscriptionManager
    → Option Subscription
    → SubscriptionManager × SvcResult ℕ
unfolding store fetch_nodes
inner_found secrets k a id m none = (m, err (not_found (t "subscription " ++ id)))
inner_found secrets k a id m (some sub) = store a id m (fetch_nodes secrets k a sub)

unfoldable pub refresh_inner :
    Secrets
    → Crates
    → RefreshAnswers
    → Text
    → SubscriptionManager
    → SubscriptionManager × SvcResult ℕ
unfolding inner_found
refresh_inner secrets k a id m = inner_found secrets k a id m (lookup id m.items)

name_of : Option Subscription → Text
name_of none = []
name_of (some s) = s.name

event_of : Text → SvcResult ℕ → SubscriptionManager → Event
unfolding name_of to_string
event_of id (ok count) m = updated id (name_of (lookup id m.items)) count
event_of id (err e) m = failed id (name_of (lookup id m.items)) (to_string e)

abbrev pub without : Text → List Text → List Text
without id ids = filter (λ j. not (text_eq j id)) ids

-- The end of a refresh: the id is free again, and one event is sent.
unfoldable pub finish : Text → SubscriptionManager × SvcResult ℕ → SubscriptionManager × SvcResult ℕ
unfolding event_of
finish id (m, result) = (
  record m { in_flight = without id m.in_flight; events = event_of id result m ∷ m.events },
  result,
)

-- `in_flight.insert(id)`, which says whether the id is new.
unfoldable pub begin : Text → SubscriptionManager → Option SubscriptionManager
unfolding text_eq
begin id m =
    if any (text_eq id) m.in_flight then none else some (record m { in_flight = id ∷ m.in_flight })

refresh_from :
    Secrets
    → Crates
    → RefreshAnswers
    → Text
    → SubscriptionManager
    → Option SubscriptionManager
    → SubscriptionManager × SvcResult ℕ
unfolding refresh_inner finish
refresh_from secrets k a id m none = (m, err (already_running (t "refresh " ++ id)))
refresh_from secrets k a id m (some begun) = finish id (refresh_inner secrets k a id begun)

unfoldable pub refresh :
    Secrets
    → Crates
    → RefreshAnswers
    → Text
    → SubscriptionManager
    → SubscriptionManager × SvcResult ℕ
unfolding refresh_from begin
refresh secrets k a id m = refresh_from secrets k a id m (begin id m)

-- An interval below a minute counts as a minute; the product is capped as an i64.
unfoldable pub is_due : ℕ → Subscription → Bool
is_due now s =
    s.enabled
    && ((s.update.last_updated == 0)
        || leb (min (max s.update.interval_secs 60 * 1000) (2 ^ 63 - 1))
            (now - s.update.last_updated))

-- The due subscriptions are refreshed one after the other, each with its own answers.
refresh_each :
    Secrets
    → Crates
    → (Text → RefreshAnswers)
    → List Subscription
    → SubscriptionManager
    → SubscriptionManager
unfolding refresh
refresh_each secrets k a [] m = m
refresh_each secrets k a (s ∷ ss) m =
    refresh_each secrets k a ss (refresh secrets k (a s.id) s.id m).0

unfoldable pub refresh_due :
    Secrets → Crates → (Text → RefreshAnswers) → ℕ → SubscriptionManager → SubscriptionManager
unfolding refresh_each is_due
refresh_due secrets k a now m = refresh_each secrets k a (filter (is_due now) (values m.items)) m
