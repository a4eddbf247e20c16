-- ===== src/Subscription/Refresh/Swap.antt =====
-- What a refresh that reaches the store leaves.
use network_client.Prelude.{
  ◌%◌, ◌^◌, ◌≡◌, refl, sym, ap, subst, ◌∙◌, arith, Bool, true, false, Option, none, some, List, [],
  ◌∷◌, length, filter, any, Text, text_eq, is_empty, lookup, insert, SvcResult, ok, err, SvcError,
  ◌>>=◌, ◌>>◌, if◌then◌else◌,
}
use network_client.Nodes.Model.{Node, validate}
use network_client.Nodes.Manager.{NodeManager, list, foreign, replace_subscription_nodes}
use network_client.Nodes.Swap.{AllValid, ids_of, latest, wrote, replace_subscription_nodes-latest}
use network_client.Subscription.Crates.{Crates}
use network_client.Subscription.Parser.{parse_all}
use network_client.Subscription.Decoder.{decode_body}
use network_client.Subscription.Manager.{
  Subscription, SubscriptionManager, Secrets, persist, with_value,
}
use network_client.Subscription.Refresh.{
  RefreshAnswers, check_each, subscription_error, parsed, fetch_nodes, stamp, stored, store,
  refresh_inner, inner_found, finish, refresh_from, refresh,
}
use network_client.Subscription.Refresh.Outcome.{begin_free}

check_each-first :
    (n : Node) (ns : List Node) (r : SvcResult (Unit {0}))
    → validate n ≡ r
    → check_each (n ∷ ns) ≡ (r >> check_each ns)
unfolding check_each
check_each-first n ns r e = ap (λ x. x >> check_each ns) e

err_ne : {x : SvcError} → let r : SvcResult (Unit {0}) = err x in r ≡ ok tt → ⊥
err_ne p = cc

check_each-AllValid : (ns : List Node) → check_each ns ≡ ok tt → AllValid ns
check_each-AllValid [] h = tt
check_each-AllValid (n ∷ ns) h = from (validate n) refl (check_each-AllValid ns)
  where
    from :
        (r : SvcResult (Unit {0}))
        → validate n ≡ r
        → (check_each ns ≡ ok tt → AllValid ns)
        → (validate n ≡ ok tt) × AllValid ns
    from (ok u) e rest = (e, rest (sym (check_each-first n ns (ok tt) e) ∙ h))
    from (err x) e rest = absurd (err_ne (sym (check_each-first n ns (err x) e) ∙ h))

check_all-AllValid :
    (ns : List Node) (r : SvcResult (Unit {0})) (found : List Node)
    → check_each ns ≡ r
    → (subscription_error r >> ok ns) ≡ ok found
    → (ns ≡ found) × AllValid ns
unfolding subscription_error
check_all-AllValid ns (ok u) found e h = (ground arith, check_each-AllValid ns e)
check_all-AllValid ns (err x) found e h = absurd (ground arith)

else_ok :
    {A : Type 0} (b : Bool) (x : SvcError) (r : SvcResult A) (a : A)
    → (if b then err x else r) ≡ ok a
    → r ≡ ok a
else_ok true x r a h = absurd (ground arith)
else_ok false x r a h = h

bind_ok :
    {A B : Type 0} (r : SvcResult A) (f : A → SvcResult B) (b : B)
    → (r >>= f) ≡ ok b
    → (a : A) × (f a ≡ ok b)
bind_ok (ok a) f b h = (a, h)
bind_ok (err e) f b h = absurd (ground arith)

parsed-AllValid :
    (k : Crates) (lines : List Text) (ns : List Node) → parsed k lines ≡ ok ns → AllValid ns
unfolding parsed
parsed-AllValid k lines ns h =
    let nodes = (parse_all k lines).0 in
    let checked = else_ok (is_empty nodes) _ _ ns (else_ok (is_empty lines) _ _ ns h) in
    let (same, valid) = check_all-AllValid nodes (check_each nodes) ns refl checked in
    subst AllValid same valid

-- What the pipeline hands to the store is valid.
fetch_nodes-AllValid :
    (secrets : Secrets) (k : Crates) (a : RefreshAnswers) (sub : Subscription) (ns : List Node)
    → fetch_nodes secrets k a sub ≡ ok ns
    → AllValid ns
unfolding fetch_nodes
fetch_nodes-AllValid secrets k a sub ns h =
    let (url, fetched) = bind_ok (secrets.unprotect sub.url) _ ns h in
    let (body, read) = bind_ok (a.fetch url) _ ns fetched in
    parsed-AllValid k (decode_body k body) ns read

-- The subscription after a swap: the ids of its nodes and the time.
abbrev pub stamped : RefreshAnswers → List Node → Subscription → Subscription
stamped a ns sub = record sub {
  node_ids = ids_of ns;
  update = record (sub.update) { last_updated = a.now };
}

refresh-store :
    (secrets : Secrets) (k : Crates) (a : RefreshAnswers) (id : Text) (m : SubscriptionManager)
    (sub : Subscription) (ns : List Node)
    → any (text_eq id) m.in_flight ≡ false
    → lookup id m.items ≡ some sub
    → fetch_nodes secrets k a sub ≡ ok ns
    → refresh secrets k a id m
      ≡ finish id (
          stored a id
            (record m { in_flight = id ∷ m.in_flight })
            (replace_subscription_nodes a.nodes_written id ns m.nodes))
unfolding refresh refresh_from refresh_inner store
refresh-store secrets k a id m sub ns free found fetched =
    let begun : SubscriptionManager = record m { in_flight = id ∷ m.in_flight } in
    ap (refresh_from secrets k a id m) (begin_free id m free)
    ∙ ap (λ o. finish id (inner_found secrets k a id begun o)) found
    ∙ ap (λ r. finish id (store a id begun r)) fetched

abbrev pub wrote_items :
    SvcResult (Unit {0})
    → List (Text × Subscription)
    → List (Text × Subscription)
    → List (Text × Subscription)
wrote_items (ok _) new old = new
wrote_items (err _) new old = old

after_write :
    (a : RefreshAnswers) (id : Text) (ids : List Text) (found : Option Subscription)
    (m : SubscriptionManager) (w : SvcResult (Unit {0}))
    → let r = finish id (with_value (length ids % 2 ^ 32) (persist w (stamp a id ids found m))) in
      (r.0.nodes ≡ m.nodes)
      × (r.1 ≡ (w >> ok (length ids % 2 ^ 32)))
      × (r.0.items ≡ (stamp a id ids found m).items)
unfolding finish with_value persist stamp
after_write a id ids none m (ok u) = (refl, refl, refl)
after_write a id ids none m (err e) = (refl, refl, refl)
after_write a id ids (some s) m (ok u) = (refl, refl, refl)
after_write a id ids (some s) m (err e) = (refl, refl, refl)

same_error :
    {A B : Type 0} {x y : SvcError}
    → let r : SvcResult A = err x in r ≡ err y → let q : SvcResult B = err x in q ≡ err y
same_error p = ground arith

swapped :
    (a : RefreshAnswers) (id : Text) (m : SubscriptionManager) (sub : Subscription) (ns : List Node)
    → lookup id m.items ≡ some sub
    → (w : SvcResult (Unit {0})) (r : NodeManager × SvcResult (List Text))
    → r.1 ≡ (w >> ok (ids_of ns))
    → ((j : Text)
        → lookup j r.0.nodes ≡ latest id j ns (lookup j (filter (foreign id) m.nodes.nodes)))
    → r.0.file ≡ wrote w (list r.0) m.nodes.file
    → let s = finish id (stored a id (record m { in_flight = id ∷ m.in_flight }) r) in
      ((j : Text)
        → lookup j s.0.nodes.nodes ≡ latest id j ns (lookup j (filter (foreign id) m.nodes.nodes)))
      × (s.1 ≡ (w >> a.written >> ok (length (ids_of ns) % 2 ^ 32)))
      × (s.0.items ≡ wrote_items w (insert id (stamped a ns sub) m.items) m.items)
      × (s.0.nodes.file ≡ wrote w (list s.0.nodes) m.nodes.file)
unfolding stored finish stamp
swapped a id m sub ns found (ok u) (nodes, ok ids) e each file =
    let p : SubscriptionManager = record m { in_flight = id ∷ m.in_flight; nodes = nodes } in
    let (kept, answer, items) = after_write a id ids (lookup id m.items) p a.written in
    let same : ids ≡ ids_of ns = ground arith in
    (
      λ j. ap (λ g. lookup j g.nodes) kept ∙ each j,
      answer ∙ ap (λ l. a.written >> ok (length l % 2 ^ 32)) same,
      items
          ∙ ap (λ o. (stamp a id ids o p).items) found
          ∙ ap
              (λ l.
                insert id
                  (record sub {
                    node_ids = l;
                    update = record (sub.update) { last_updated = a.now };
                  })
                  m.items)
              same,
      ap (λ g. g.file) kept ∙ file ∙ ap list (sym kept),
    )
swapped a id m sub ns found (err x) (nodes, ok ids) e each file = absurd (ground arith)
swapped a id m sub ns found (ok u) (nodes, err y) e each file = absurd (ground arith)
swapped a id m sub ns found (err x) (nodes, err y) e each file = (each, same_error e, refl, file)

-- A refresh that reaches the store. In memory every id has the last of the parsed nodes with that id, or
-- what it had, unless that belonged to the subscription; so it is also where the write of the nodes fails:
-- then the subscriptions are as before, the file of the nodes too, and the error is returned. Where it
-- succeeds, the file of the nodes is the list of those in memory, the subscription names the new nodes and
-- the time of the refresh, and the count is returned if the file of the subscriptions is written as well.
pub refresh-latest :
    (secrets : Secrets) (k : Crates) (a : RefreshAnswers) (id : Text) (m : SubscriptionManager)
    (sub : Subscription) (ns : List Node)
    → any (text_eq id) m.in_flight ≡ false
    → lookup id m.items ≡ some sub
    → fetch_nodes secrets k a sub ≡ ok ns
    → let r = refresh secrets k a id m in
      ((j : Text)
        → lookup j r.0.nodes.nodes ≡ latest id j ns (lookup j (filter (foreign id) m.nodes.nodes)))
      × (r.1 ≡ (a.nodes_written >> a.written >> ok (length (ids_of ns) % 2 ^ 32)))
      × (r.0.items ≡ wrote_items a.nodes_written (insert id (stamped a ns sub) m.items) m.items)
      × (r.0.nodes.file ≡ wrote a.nodes_written (list r.0.nodes) m.nodes.file)
refresh-latest secrets k a id m sub ns free found fetched =
    let (each, answer, file) =
      replace_subscription_nodes-latest a.nodes_written id ns m.nodes
        (fetch_nodes-AllValid secrets k a sub ns fetched) in
    rw (refresh-store secrets k a id m sub ns free found fetched)
      (swapped a id m sub ns found a.nodes_written _ answer each file)
