-- ===== src/Subscription/Refresh/Nameless.antt =====
-- One node without a name fails a whole refresh.
use network_client.Prelude.{
  ◌≡◌, refl, ap, ◌∙◌, arith, Bool, true, false, some, List, [], ◌∷◌, any, Text, t, text_eq,
  is_empty, trim, lookup, SvcResult, ok, err, SvcError, config_invalid, to_string, ◌>>=◌, ◌>>◌,
  if◌then◌else◌, Bool-cases, inl, inr,
}
use network_client.Nodes.Model.{Node, validate}
use network_client.Subscription.Crates.{Crates}
use network_client.Subscription.Parser.{parse_all}
use network_client.Subscription.Decoder.{decode_body}
use network_client.Subscription.Manager.{Subscription, SubscriptionManager, Secrets, failed}
use network_client.Subscription.Refresh.{
  RefreshAnswers, check_each, subscription_error, parsed, fetch_nodes, refresh,
}
use network_client.Subscription.Refresh.Outcome.{refresh-fetch_nodes}

abbrev pub is_nameless : Node → Bool
is_nameless n = is_empty (trim n.name)

validate_nameless : (n : Node) → is_nameless n ≡ true → (e : SvcError) × (validate n ≡ err e)
unfolding validate
validate_nameless n h = (config_invalid (t "node name is empty"), rw h refl)

check_each_nameless :
    (ns : List Node) → any is_nameless ns ≡ true → (e : SvcError) × (check_each ns ≡ err e)
unfolding check_each
check_each_nameless [] h = absurd (ground arith)
check_each_nameless (n ∷ ns) h = elim (Bool-cases (is_nameless n)) [
  | inl here ↦
      let (e, refused) = validate_nameless n here in (e, ap (λ r. r >> check_each ns) refused)
  | inr named ↦
      let (e, refused) = check_each_nameless ns (later n ns named h) in first (validate n) e refused
]
  where
    later :
        (m : Node) (ms : List Node)
        → is_nameless m ≡ false
        → any is_nameless (m ∷ ms) ≡ true
        → any is_nameless ms ≡ true
    later m ms named some_one = ground arith

    first :
        (r : SvcResult (Unit {0})) (e : SvcError)
        → check_each ns ≡ err e
        → (f : SvcError) × ((r >> check_each ns) ≡ err f)
    first (ok u) e refused = (e, refused)
    first (err x) e refused = (x, refl)

parsed_nameless :
    (k : Crates) (lines : List Text)
    → any is_nameless (parse_all k lines).0 ≡ true
    → (e : SvcError) × (parsed k lines ≡ err e)
unfolding parsed subscription_error
parsed_nameless k lines h =
    let nodes = (parse_all k lines).0 in
    let (e, refused) = check_each_nameless nodes h in
    either (is_empty lines) _ _
      (either (is_empty nodes) _ _ (_, ap (λ r. subscription_error r >> ok nodes) refused))
  where
    either :
        (b : Bool) (x : SvcError) (r : SvcResult (List Node))
        → (e : SvcError) × (r ≡ err e)
        → (e : SvcError) × ((if b then err x else r) ≡ err e)
    either true x r h = (x, refl)
    either false x r h = h

-- One parsed node without a name, such as that of a VMess link whose `ps` is missing, fails the refresh of
-- the whole subscription: an error is returned, one event is sent, and no other node is stored.
pub refresh_nameless :
    (secrets : Secrets) (k : Crates) (a : RefreshAnswers) (id url body : Text)
    (m : SubscriptionManager) (sub : Subscription)
    → any (text_eq id) m.in_flight ≡ false
    → lookup id m.items ≡ some sub
    → secrets.unprotect sub.url ≡ ok url
    → a.fetch url ≡ ok body
    → any is_nameless (parse_all k (decode_body k body)).0 ≡ true
    → (e : SvcError) × (refresh secrets k a id m
        ≡ (record m { events = failed id sub.name (to_string e) ∷ m.events }, err e))
unfolding fetch_nodes
refresh_nameless secrets k a id url body m sub free found readable fetched nameless =
    let (e, refused) = parsed_nameless k (decode_body k body) nameless in
    let fails : fetch_nodes secrets k a sub ≡ err e =
      ap (λ r. r >>= λ u. a.fetch u >>= λ b. parsed k (decode_body k b)) readable
      ∙ ap (λ r. r >>= λ b. parsed k (decode_body k b)) fetched
      ∙ refused in
    (e, refresh-fetch_nodes secrets k a id m sub e free found fails)
