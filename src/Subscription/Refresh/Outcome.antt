-- ===== src/Subscription/Refresh/Outcome.antt =====
-- The guard, the event and the failures of a refresh.
use network_client.Prelude.{
  ℕ, ◌≡◌, refl, ap, ◌∙◌, arith, true, false, Option, none, some, List, [], ◌∷◌, ◌++◌, any, Text, t,
  text_eq, text_eq_refl, text_eq_iff, lookup, SvcResult, ok, err, SvcError, already_running,
  to_string, length, ◌%◌, ◌^◌,
}
use network_client.Nodes.Model.{Node}
use network_client.Nodes.Manager.{NodeManager, replace_subscription_nodes}
use network_client.Subscription.Crates.{Crates}
use network_client.Subscription.Manager.{
  Subscription, SubscriptionManager, Secrets, Event, updated, failed, persist, with_value,
}
use network_client.Subscription.Refresh.{
  RefreshAnswers, fetch_nodes, stamp, stored, store, refresh_inner, inner_found, event_of, without,
  finish, begin, refresh_from, refresh, name_of,
}

without-absent : (id : Text) (ids : List Text) → any (text_eq id) ids ≡ false → without id ids ≡ ids
without-absent id [] h = refl
without-absent id (j ∷ ids) h =
    ground (arith, text_eq_iff j id, text_eq_iff id j, without-absent id ids)

pub without_own :
    (id : Text) (ids : List Text) → any (text_eq id) ids ≡ false → without id (id ∷ ids) ≡ ids
without_own id ids h = ground (arith, text_eq_refl id, without-absent id ids h)

-- What the pipeline leaves alone.
record Keeps (m p : SubscriptionManager) : Type 0 where
  pub in_flight : p.in_flight ≡ m.in_flight
  pub events : p.events ≡ m.events

Keeps-persist :
    {A : Type 0} (a : A) (written : SvcResult (Unit {0})) (m : SubscriptionManager)
    → Keeps m (with_value a (persist written m)).0
unfolding with_value persist
Keeps-persist a (ok _) m = record { in_flight = refl; events = refl }
Keeps-persist a (err e) m = record { in_flight = refl; events = refl }

Keeps-stamp :
    (a : RefreshAnswers) (id : Text) (node_ids : List Text) (found : Option Subscription)
    (m : SubscriptionManager)
    → Keeps m (stamp a id node_ids found m)
unfolding stamp
Keeps-stamp a id node_ids none m = record { in_flight = refl; events = refl }
Keeps-stamp a id node_ids (some s) m = record { in_flight = refl; events = refl }

Keeps-trans : (m p q : SubscriptionManager) → Keeps m p → Keeps p q → Keeps m q
Keeps-trans m p q h k = record {
  in_flight = k.in_flight ∙ h.in_flight;
  events = k.events ∙ h.events;
}

Keeps-stored :
    (a : RefreshAnswers) (id : Text) (m : SubscriptionManager)
    (r : NodeManager × SvcResult (List Text))
    → Keeps m (stored a id m r).0
unfolding stored
Keeps-stored a id m (nodes, err e) = record { in_flight = refl; events = refl }
Keeps-stored a id m (nodes, ok ids) =
    let p : SubscriptionManager = record m { nodes = nodes } in
    let q = stamp a id ids (lookup id m.items) p in
    let h = Keeps-stamp a id ids (lookup id m.items) p in
    let k = Keeps-persist (length ids % 2 ^ 32) a.written q in
    record { in_flight = k.in_flight ∙ h.in_flight; events = k.events ∙ h.events }

Keeps-refresh_inner :
    (secrets : Secrets) (k : Crates) (a : RefreshAnswers) (id : Text) (m : SubscriptionManager)
    → Keeps m (refresh_inner secrets k a id m).0
unfolding refresh_inner store
Keeps-refresh_inner secrets k a id m = from (lookup id m.items)
  where
    storing : (r : SvcResult (List Node)) → Keeps m (store a id m r).0
    storing (err e) = record { in_flight = refl; events = refl }
    storing (ok nodes) =
        Keeps-stored a id m (replace_subscription_nodes a.nodes_written id nodes m.nodes)

    from : (found : Option Subscription) → Keeps m (inner_found secrets k a id m found).0
    from none = record { in_flight = refl; events = refl }
    from (some sub) = storing (fetch_nodes secrets k a sub)

-- The event says how the refresh ended.
pub Tells : Text → SvcResult ℕ → Event → Type 0
Tells id (ok count) (updated i name n) = (i ≡ id) × (n ≡ count)
Tells id (ok count) (failed i name message) = ⊥
Tells id (err e) (updated i name n) = ⊥
Tells id (err e) (failed i name message) = (i ≡ id) × (message ≡ to_string e)

Tells-event_of :
    (id : Text) (r : SvcResult ℕ) (m : SubscriptionManager) → Tells id r (event_of id r m)
unfolding Tells event_of
Tells-event_of id (ok count) m = (refl, refl)
Tells-event_of id (err e) m = (refl, refl)

pub begin_free :
    (id : Text) (m : SubscriptionManager)
    → any (text_eq id) m.in_flight ≡ false
    → begin id m ≡ some (record m { in_flight = id ∷ m.in_flight })
unfolding begin
begin_free id m free = rw free refl

-- A refresh of a subscription that is in no other refresh ends with the set of running refreshes as it
-- was, so that the next one is not refused, and with exactly one event more, which carries the id and the
-- result, whatever the outside answers.
pub refresh-frees :
    (secrets : Secrets) (k : Crates) (a : RefreshAnswers) (id : Text) (m : SubscriptionManager)
    → any (text_eq id) m.in_flight ≡ false
    → let r = refresh secrets k a id m in
      (r.0.in_flight ≡ m.in_flight) × (e : Event) × (r.0.events ≡ e ∷ m.events) × Tells id r.1 e
unfolding refresh refresh_from finish
refresh-frees secrets k a id m free =
    rw (begin_free id m free)
      (from (refresh_inner secrets k a id begun) (Keeps-refresh_inner secrets k a id begun))
  where
    begun : SubscriptionManager
    begun = record m { in_flight = id ∷ m.in_flight }

    from :
        (r : SubscriptionManager × SvcResult ℕ)
        → Keeps begun r.0
        → ((finish id r).0.in_flight ≡ m.in_flight)
          × (e : Event) × ((finish id r).0.events ≡ e ∷ m.events)
          × Tells id (finish id r).1 e
    from (p, result) h = (
      ap (without id) h.in_flight ∙ without_own id m.in_flight free,
      event_of id result p,
      ap (λ es. event_of id result p ∷ es) h.events,
      Tells-event_of id result p,
    )

running :
    (id : Text) (m p : SubscriptionManager)
    → begin id m ≡ some p
    → any (text_eq id) p.in_flight ≡ true
unfolding begin
running id m p e = ground (arith, text_eq_refl id)

begin_taken :
    (id : Text) (m : SubscriptionManager) → any (text_eq id) m.in_flight ≡ true → begin id m ≡ none
unfolding begin
begin_taken id m taken = rw taken refl

-- While a refresh runs, a second one of the same subscription is refused and changes nothing.
pub refresh-begin :
    (secrets : Secrets) (k : Crates) (a : RefreshAnswers) (id : Text) (m p : SubscriptionManager)
    → begin id m ≡ some p
    → refresh secrets k a id p ≡ (p, err (already_running (t "refresh " ++ id)))
unfolding refresh refresh_from begin
refresh-begin secrets k a id m p e =
    ap (refresh_from secrets k a id p) (begin_taken id p (running id m p e))

-- A refresh whose pipeline fails before the store, that is in the URL, the download, the decoding, the
-- parsing or the validation, keeps the subscriptions, the file and all nodes as they were, and returns
-- that failure.
pub refresh-fetch_nodes :
    (secrets : Secrets) (k : Crates) (a : RefreshAnswers) (id : Text) (m : SubscriptionManager)
    (sub : Subscription) (e : SvcError)
    → any (text_eq id) m.in_flight ≡ false
    → lookup id m.items ≡ some sub
    → fetch_nodes secrets k a sub ≡ err e
    → refresh secrets k a id m
      ≡ (record m { events = failed id sub.name (to_string e) ∷ m.events }, err e)
unfolding refresh refresh_from refresh_inner inner_found store finish event_of name_of
refresh-fetch_nodes secrets k a id m sub e free found fails =
    let begun : SubscriptionManager = record m { in_flight = id ∷ m.in_flight } in
    let name : name_of (lookup id m.items) ≡ sub.name = ap name_of found in
    let restored = without_own id m.in_flight free in
    ap (refresh_from secrets k a id m) (begin_free id m free)
    ∙ ap (λ o. finish id (inner_found secrets k a id begun o)) found
    ∙ ap (λ r. finish id (store a id begun r)) fails
    ∙ ap
        (λ ids. (
          record m {
            in_flight = ids;
            events = failed id (name_of (lookup id m.items)) (to_string e) ∷ m.events;
          },
          err e,
        ))
        restored
    ∙ ap (λ n. (record m { events = failed id n (to_string e) ∷ m.events }, err e)) name
