-- ===== src/Tests/Subscription.antt =====
-- Share links and subscriptions at concrete inputs.
use network_client.Prelude.{
  ℕ, ◌≡◌, ◌≢◌, refl, arith, Bool, true, false, Option, none, some, List, [], ◌∷◌, ◌++◌, Text, t,
  text_eq, any, lookup, length, inl, inr, contains, ◌||◌, ◌+◌, ◌%◌, ◌^◌, filter, insert, ok, err,
  SvcResult, SvcError, Json, get_member, from_utf8, as_bytes, if◌then◌else◌, to_string, ◌>>◌,
}
use network_client.Prelude
use network_client.Nodes.Model.{Node}
use network_client.Nodes.Manager.{list, foreign}
use network_client.Nodes.Swap.{latest, wrote}
use network_client.Subscription.Crates.{Crates}
use network_client.Subscription.Link.{host_port, decode_name, pad}
use network_client.Subscription.Ss
use network_client.Subscription.Share.{ss_link, parse-ss_link}
use network_client.Subscription.Parser.{parse_all}
use network_client.Subscription.Counts.{AllKept, parse_all-AllKept}
use network_client.Subscription.Decoder.{decode_body}
use network_client.Subscription.Manager.{Subscription, SubscriptionManager, Secrets, Event, failed}
use network_client.Subscription.Refresh.{RefreshAnswers, refresh, fetch_nodes}
use network_client.Subscription.Refresh.Outcome.{Tells, refresh-frees}
use network_client.Subscription.Refresh.Swap.{stamped, wrote_items, refresh-latest}
use network_client.Subscription.Refresh.Nameless.{refresh_nameless}
use network_client.Subscription.View.{list_views}
use network_client.Subscription.View.Masked.{address, urls, list_views-AllSameSite}

abbrev host : Text
host = t "h.io"

-- Engines that know one text each, and read no URL.
abbrev crates : Crates
crates = record {
  url_safe_no_pad = λ s. if text_eq s (t "bTpw") then some (as_bytes (t "m:p")) else none;
  standard = λ s. if text_eq s (t "e30=") then some (as_bytes (t "{}")) else none;
  percent_decode = λ s. as_bytes s;
  parse_url = λ s. none;
  parse_json = λ s. some (
      Json.object (
        Prelude.member (t "add") (Json.string (t "v.io")) (
          Prelude.member (t "port") (Json.string (t "443"))
            (Prelude.member (t "id") (Json.string (t "u")) Prelude.end))));
  show_json = λ j. [];
}

parse-ss_link_example :
    (n : Node) × (Ss.parse crates (ss_link (t "bTpw") host 80 (t "N")) ≡ some n)
    × (n.protocol ≡ t "shadowsocks")
    × (n.endpoint ≡ record { host = host; port = 80 })
    × (get_member (t "method") n.authentication ≡ some (Json.string (t "m")))
    × (get_member (t "password") n.authentication ≡ some (Json.string (t "p")))
    × (n.name ≡ decode_name crates (some (t "N")) (host_port host 80))
unfolding pad Prelude.text_eq Prelude.is_whitespace as_bytes
parse-ss_link_example =
    parse-ss_link crates (t "bTpw") (t "m") (t "p") host (t "N") 80
      (inl (omega arith), (inl (omega arith), (inl (omega arith), tt))) refl (λ e. ground arith, tt)
      (
        (λ e. ground arith, (λ e. ground arith, (λ e. ground arith, (λ e. ground arith, tt)))),
        (λ e. ground arith, (λ e. ground arith, (λ e. ground arith, (λ e. ground arith, tt)))),
      )
      (
        (λ e. ground arith, (λ e. ground arith, (λ e. ground arith, (λ e. ground arith, tt)))),
        (λ e. ground arith, (λ e. ground arith, (λ e. ground arith, (λ e. ground arith, tt)))),
        (refl, λ e. ground arith),
      )
      (omega arith)

abbrev links : List Text
links = t "ss://bTpw@h.io:80#N" ∷ t "ss://bTpw@0.0.0.0:80#News" ∷ t "nothing" ∷ []

parse_all-AllKept_example :
    AllKept (parse_all crates links).0
    × (length (parse_all crates links).0 + (parse_all crates links).1 ≡ length links)
parse_all-AllKept_example = parse_all-AllKept crates links

abbrev secrets : Secrets
secrets = record { protect = λ s. ok s; unprotect = λ s. ok s }

abbrev sub : Subscription
sub = record {
  id = t "s1";
  name = t "Provider";
  url = t "https://p.io";
  enabled = true;
  update = record { interval_secs = 3600; last_updated = 0 };
  node_ids = [];
}

abbrev manager : SubscriptionManager
manager = record {
  items = (t "s1", sub) ∷ [];
  in_flight = t "s2" ∷ [];
  file = sub ∷ [];
  nodes = record { nodes = []; selected = none; file = [] };
  events = [];
}

abbrev answers : Text → RefreshAnswers
answers body = record { fetch = λ _. ok body; nodes_written = ok tt; written = ok tt; now = 5 }

refresh-frees_example :
    let r = refresh secrets crates (answers (t "ss://bTpw@h.io:80#N")) (t "s1") manager in
    (r.0.in_flight ≡ manager.in_flight)
    × (e : Event) × (r.0.events ≡ e ∷ manager.events)
    × Tells (t "s1") r.1 e
unfolding Prelude.text_eq
refresh-frees_example =
    refresh-frees secrets crates (answers (t "ss://bTpw@h.io:80#N")) (t "s1") manager refl

refresh_nameless_example :
    (e : SvcError) × (refresh secrets crates (answers (t "vmess://e30")) (t "s1") manager
      ≡ (record manager { events = failed (t "s1") sub.name (to_string e) ∷ [] }, err e))
unfolding Prelude.text_eq Prelude.lookup parse_all decode_body Prelude.split_once_text
refresh_nameless_example =
    refresh_nameless secrets crates (answers (t "vmess://e30")) (t "s1") (t "https://p.io")
      (t "vmess://e30") manager sub refl refl refl refl refl

abbrev node : Node
node = Ss.node_of crates (some (t "N")) (t "m") (t "p") (host, 80)

refresh-latest_example :
    let r = refresh secrets crates (answers (t "ss://bTpw@h.io:80#N")) (t "s1") manager in
    ((j : Text)
      → lookup j r.0.nodes.nodes
        ≡ latest (t "s1") j (node ∷ []) (lookup j (filter (foreign (t "s1")) [])))
    × (r.1 ≡ (ok tt >> ok tt >> ok (1 % 2 ^ 32)))
    × (r.0.items
        ≡ wrote_items
            (ok tt)
            (insert
              (t "s1")
              (stamped (answers (t "ss://bTpw@h.io:80#N")) (node ∷ []) sub)
              manager.items)
            manager.items)
    × (r.0.nodes.file ≡ wrote (ok tt) (list r.0.nodes) [])
unfolding Prelude.text_eq Prelude.lookup fetch_nodes Prelude.split_once_text Prelude.split_once
    Prelude.rsplit_once
refresh-latest_example =
    refresh-latest secrets crates (answers (t "ss://bTpw@h.io:80#N")) (t "s1") manager sub
      (node ∷ []) refl refl refl

-- Two secrets behind the same stored text.
abbrev reads : Text → Secrets
reads path = record {
  protect = λ s. ok s;
  unprotect = λ s. ok (address (t "https") (t "p.io") path);
}

list_views-AllSameSite_example :
    list_views (reads (t "token1")) manager ≡ list_views (reads (t "token2")) manager
list_views-AllSameSite_example =
    list_views-AllSameSite (reads (t "token1")) (reads (t "token2")) manager (
      urls (t "https") (t "p.io") (t "token1") (t "token2")
          (
            λ e. ground arith,
            (λ e. ground arith, (λ e. ground arith, (λ e. ground arith, (λ e. ground arith, tt)))),
          )
          (λ e. ground arith, (λ e. ground arith, (λ e. ground arith, (λ e. ground arith, tt)))),
      tt,
    )
