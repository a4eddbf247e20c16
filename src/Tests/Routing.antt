-- ===== src/Tests/Routing.antt =====
-- Lookups, rule edits and a decision at concrete tables. No pattern compiles, and the address parser
-- knows two texts.
use network_client.Prelude
use network_client.Prelude.{
  inl, to_ascii_lowercase, contains, to_ascii_uppercase, ℕ, ◌≡◌, ◌⊎◌, refl, Bool, true, false,
  Option, none, some, List, [], ◌∷◌, Text, t, text_eq, take, pos, SvcError, SvcResult, ok, err,
  config_invalid, arith, if◌then◌else◌, split_once, parse_unsigned, trim, is_whitespace,
}
use network_client.Config.Schema
use network_client.Routing.Rule.{Action, Rule, RuleKind, Flow, v4, v6, decision_direct}
use network_client.Routing.BitTrie
use network_client.Routing.BitTrie.{ip_bits}
use network_client.Routing.Lpm.{bits_eq, leaf_at, longest, lookup-insert}
use network_client.Routing.DomainTrie.{M}
use network_client.Routing.DomainTrie
use network_client.Routing.IpIndex.{Ip, insert_cidr, lookup}
use network_client.Routing.IpIndex
use network_client.Routing.Index.{RuleIndex, build, add_rules, match_ip, match_geoip, match_domain}
use network_client.Routing.Cidr.{lookup-insert_cidr}
use network_client.Routing.DomainTrie.{lookup_suffix}
use network_client.Routing.Engine.{Files, RoutingEngine, stages, decide, mode_default}
use network_client.Routing.Publish.{add, delete}
use network_client.Routing.Boot.{load}
use network_client.Routing.Restart.{Call, edits, configures, call_all, load-call_all}
use network_client.Routing.GeoIp.{with_private}
use network_client.Routing.Domain.{Beats, BeatsAll, match_domain-Beats}
use network_client.Routing.Suffix.{insert_each, lookup_suffix-insert_suffix}
use network_client.Routing.Private.{home, decide-IsPrivate}
use network_client.Routing.Decision.{Below, Picks, by_match, decide_lem}

abbrev parse_ip : Text → Option Ip
parse_ip s =
    if text_eq s (t "10.0.0.0")
    then some (v4 (10 ∷ 0 ∷ 0 ∷ 0 ∷ []))
    else if text_eq s (t "::1")
    then some (v6 (0 ∷ []))
    else none

abbrev compile : Text → Text ⊎ Unit {0}
compile s = inl s

abbrev no_match : Unit {0} → Text → Bool
no_match _ _ = false

abbrev leaf : ℕ
leaf = 7

lookup-insert_example :
    BitTrie.lookup (true ∷ true ∷ []) (BitTrie.insert (true ∷ false ∷ []) 1 leaf BitTrie.new)
    ≡ longest
        (λ q. if bits_eq (take 1 (true ∷ false ∷ [])) q then some leaf else leaf_at q BitTrie.new)
        (true ∷ true ∷ [])
lookup-insert_example = lookup-insert (true ∷ true ∷ []) (true ∷ false ∷ []) 1 leaf BitTrie.new

lookup-insert_cidr_example :
    (next : IpIndex.Tries ℕ) × (insert_cidr parse_ip (t "10.0.0.0/8") 7 IpIndex.new ≡ ok next)
    × ((addr : List ℕ)
        → lookup (v4 addr) next
          ≡ longest
              (λ q.
                if bits_eq (take 8 (ip_bits (10 ∷ 0 ∷ 0 ∷ 0 ∷ []))) q
                then some 7
                else leaf_at q (IpIndex.Tries.trie4 IpIndex.new))
              (ip_bits addr))
    × ((addr : List ℕ) → lookup (v6 addr) next ≡ lookup (v6 addr) IpIndex.new)
unfolding split_once parse_unsigned trim is_whitespace text_eq
lookup-insert_cidr_example =
    lookup-insert_cidr parse_ip (t "10.0.0.0/8") (t "10.0.0.0") (t "8") (10 ∷ 0 ∷ 0 ∷ 0 ∷ []) 8 7
      IpIndex.new refl refl refl (omega arith)

abbrev lan : Rule
lan = record {
  id = t "lan";
  kind = RuleKind.ip_cidr;
  value = t "10.0.0.0/8";
  action = Action.direct;
  enabled = true;
  priority = pos 0;
}

-- No file of rules yet, and settings of smart mode.
abbrev files : Files
files = record {
  rules = err (config_invalid []);
  routing = ok (record { mode = Schema.smart; final_action = Action.proxy; home_country = t "CN" });
}

abbrev engine : RoutingEngine (Unit {0})
engine = record {
  rules = [];
  index = record {
    suffix = DomainTrie.new;
    exact = [];
    keyword = [];
    regex = [];
    cidr = IpIndex.new;
    process_map = [];
    port_exact = (443, record { rule_id = t "https"; action = Action.proxy; priority = 700 }) ∷ [];
    port_range = [];
    protocol_map =
        (t "tcp", record { rule_id = t "tcp"; action = Action.block; priority = 900 }) ∷ [];
    geoip_map = [];
  };
  geo = IpIndex.new;
  cfg = record { mode = Schema.smart; final_action = Action.proxy; home_country = t "CN" };
  files = files;
}

abbrev fresh_engine : RoutingEngine (Unit {0})
fresh_engine = record engine { index = record engine.index { port_exact = []; protocol_map = [] } }

abbrev flow : Flow Ip
flow = record {
  protocol = t "TCP";
  src_ip = none;
  src_port = 50000;
  dst_ip = none;
  dst_port = 443;
  domain = none;
  process_id = 0;
  process_name = none;
}

decide_lem_example :
    (Below 0 (stages no_match flow engine)
      × (decide no_match flow engine ≡ mode_default Schema.smart flow engine))
    ⊎ ((label : Text) × (m : M) × Picks (stages no_match flow engine) label m
        × (decide no_match flow engine ≡ by_match m label))
decide_lem_example = decide_lem no_match flow engine

abbrev home_engine : RoutingEngine (Unit {0})
home_engine = record fresh_engine { geo = with_private }

abbrev home_flow : Flow Ip
home_flow = record flow { protocol = []; dst_ip = some (v4 (192 ∷ 168 ∷ 1 ∷ 9 ∷ [])); dst_port = 0 }

decide-IsPrivate_example : decide no_match home_flow home_engine ≡ decision_direct (t "private/lan")
unfolding stages match_ip match_geoip lookup with_private IpIndex.new BitTrie.lookup
    BitTrie.lookup_from BitTrie.insert BitTrie.new ip_bits to_ascii_uppercase
    network_client.Prelude.lookup
decide-IsPrivate_example =
    decide-IsPrivate no_match home_flow home_engine (192 ∷ 168 ∷ 1 ∷ 9 ∷ []) (home (1 ∷ 9 ∷ []))
      refl refl refl tt

-- A keyword of priority 800 against the exact name at 500.
abbrev ads_index : RuleIndex (Unit {0})
ads_index = record fresh_engine.index {
  exact =
      (t "ads.example", record { rule_id = t "exact"; action = Action.proxy; priority = 500 }) ∷ [];
  keyword = (t "ads", record { rule_id = t "ads"; action = Action.block; priority = 800 }) ∷ [];
}

match_domain-Beats_example :
    let r = match_domain no_match (t "ADS.example") ads_index in
    Beats r (network_client.Prelude.lookup (to_ascii_lowercase (t "ADS.example")) ads_index.exact)
    × Beats r (lookup_suffix (t "ADS.example") ads_index.suffix)
    × BeatsAll (λ kw. contains kw (to_ascii_lowercase (t "ADS.example"))) r ads_index.keyword
    × BeatsAll (λ re. no_match re (t "ADS.example")) r ads_index.regex
match_domain-Beats_example = match_domain-Beats no_match (t "ADS.example") ads_index

abbrev direct_match : M
direct_match = record { rule_id = t "a"; action = Action.direct; priority = 800 }

lookup_suffix-insert_suffix_example :
    lookup_suffix (t "Example.com") (
      DomainTrie.insert_suffix
        (t ".example.com")
        direct_match
        (insert_each ((t "deep.example.com", direct_match) ∷ []) DomainTrie.new))
    ≡ some direct_match
unfolding DomainTrie.labels to_ascii_lowercase network_client.Prelude.split
lookup_suffix-insert_suffix_example =
    lookup_suffix-insert_suffix ((t "deep.example.com", direct_match) ∷ []) (t ".example.com")
      (t "Example.com") direct_match refl

abbrev booted : RoutingEngine (Unit {0})
booted = record fresh_engine { geo = with_private }

abbrev calls : List Call
calls =
    edits (add (t "rule_1") (ok tt) lan)
    ∷ configures (record engine.cfg { mode = Schema.global })
    ∷ edits (delete (err (config_invalid [])) (t "lan"))
    ∷ []

load-call_all_example :
    let e = call_all compile parse_ip calls booted in load compile parse_ip e.files none ≡ ok e
unfolding load build add_rules
load-call_all_example = load-call_all compile parse_ip files none calls booted refl
