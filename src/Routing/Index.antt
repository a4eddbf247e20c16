-- ===== src/Routing/Index.antt =====
-- `RuleIndex` of service/network-service/src/routing/matcher.rs: `build` and the `match_*`. The
-- `regex` crate is a parameter: `compile` is what `Regex::new` returns, a message or a pattern, and `is_match` its test. So is
-- `IpAddr::from_str`.
use network_client.Prelude.{
  ◌⊎◌, inl, inr, ℕ, ◌^◌, ◌-◌, Bool, ◌&&◌, ◌==◌, Option, none, some, List, [], ◌∷◌, ◌++◌, Text, t,
  trim, split, split_once, contains, to_ascii_lowercase, to_ascii_uppercase, lookup, insert,
  parse_unsigned, leb, config_invalid, SvcResult, ok, err, ◌>>=◌, if◌then◌else◌, get_or, reverse,
}
use network_client.Routing.Rule.{
  Rule, RuleKind, domain, domain_suffix, domain_keyword, domain_regex, ip_cidr, port, process,
  protocol, geoip,
}
use network_client.Routing.DomainTrie.{M, DomainTrie, from_rule, insert_suffix, lookup_suffix}
use network_client.Routing.DomainTrie
use network_client.Routing.IpIndex.{Ip, Tries, insert_cidr}
use network_client.Routing.IpIndex

pub record RuleIndex (Regex : Type 0) : Type 0 where
  pub suffix : DomainTrie
  pub exact : List (Text × M)
  pub keyword : List (Text × M)
  pub regex : List (Regex × M)
  pub cidr : Tries M
  pub process_map : List (Text × M)
  pub port_exact : List (ℕ × M)
  pub port_range : List (ℕ × ℕ × M)
  pub protocol_map : List (Text × M)
  pub geoip_map : List (Text × M)

-- `HashMap<u16, M>`, with the last insertion of a port first.
unfoldable pub port_lookup : ℕ → List (ℕ × M) → Option M
port_lookup p [] = none
port_lookup p ((q, m) ∷ ports) = if q == p then some m else port_lookup p ports

-- `.find(|(a, b, _)| port >= *a && port <= *b)`
unfoldable pub range_lookup : ℕ → List (ℕ × ℕ × M) → Option M
range_lookup p [] = none
range_lookup p ((a, b, m) ∷ ranges) = if leb a p && leb p b then some m else range_lookup p ranges

-- `str::parse::<u16>`, with the error of a port rule.
abbrev parse_port : Rule → Text → SvcResult ℕ
parse_port rule s = elim (parse_unsigned (2 ^ 16 - 1) s) [
  | none ↦ err (config_invalid (t "bad port rule " ++ rule.id))
  | some p ↦ ok p
]

-- `map_err` of the answer of `Regex::new`.
unfoldable pub compiled : {Regex : Type 0} → Rule → Text ⊎ Regex → SvcResult Regex
compiled rule (inl e) = err (config_invalid (t "rule " ++ rule.id ++ t ": " ++ e))
compiled rule (inr re) = ok re

module _ {Regex : Type 0} (compile : Text → Text ⊎ Regex) (parse_ip : Text → Option Ip) where
  unfoldable pub add_port :
      Rule → Text → Option (Text × Text) → RuleIndex Regex → SvcResult (RuleIndex Regex)
  add_port rule value (some (a, b)) idx = parse_port rule (trim a) >>= λ lo.
      parse_port rule (trim b) >>= λ hi.
      ok (record idx { port_range = idx.port_range ++ (lo, hi, from_rule rule) ∷ [] })
  add_port rule value none idx = parse_port rule value >>= λ p.
      ok (record idx { port_exact = (p, from_rule rule) ∷ idx.port_exact })

  -- The `match` on the kind of an enabled rule, on its value with the ends trimmed.
  unfoldable pub add_kind : RuleKind → Rule → Text → RuleIndex Regex → SvcResult (RuleIndex Regex)
  unfolding add_port compiled
  add_kind domain rule value idx =
      ok (record idx { exact = insert (to_ascii_lowercase value) (from_rule rule) idx.exact })
  add_kind domain_suffix rule value idx =
      ok (record idx { suffix = insert_suffix value (from_rule rule) idx.suffix })
  add_kind domain_keyword rule value idx =
      ok (record idx { keyword = idx.keyword ++ (to_ascii_lowercase value, from_rule rule) ∷ [] })
  add_kind domain_regex rule value idx = compiled rule (compile value) >>= λ re.
      ok (record idx { regex = idx.regex ++ (re, from_rule rule) ∷ [] })
  add_kind ip_cidr rule value idx = insert_cidr parse_ip value (from_rule rule) idx.cidr >>= λ cidr.
      ok (record idx { cidr = cidr })
  add_kind port rule value idx = add_port rule value (split_once 45 value) idx
  add_kind process rule value idx = ok (record idx {
    process_map = insert (to_ascii_lowercase value) (from_rule rule) idx.process_map;
  })
  add_kind protocol rule value idx = ok (record idx {
    protocol_map = insert (to_ascii_lowercase value) (from_rule rule) idx.protocol_map;
  })
  add_kind geoip rule value idx =
      ok (record idx {
        geoip_map = insert (to_ascii_uppercase value) (from_rule rule) idx.geoip_map;
      })

  -- The loop of `build` over the enabled rules.
  unfoldable pub add_rules : List Rule → RuleIndex Regex → SvcResult (RuleIndex Regex)
  unfolding add_kind
  add_rules [] idx = ok idx
  add_rules (rule ∷ rules) idx =
      let skipped = add_rules rules idx in
      if rule.enabled
      then add_kind rule.kind rule (trim rule.value) idx >>= add_rules rules
      else skipped

  unfoldable pub build : List Rule → SvcResult (RuleIndex Regex)
  unfolding add_rules DomainTrie.new IpIndex.new
  build rules = add_rules rules (record {
    suffix = DomainTrie.new;
    exact = [];
    keyword = [];
    regex = [];
    cidr = IpIndex.new;
    process_map = [];
    port_exact = [];
    port_range = [];
    protocol_map = [];
    geoip_map = [];
  })

-- `better`: a tie keeps the current match.
abbrev pub better : Option M → Option M → Option M
better current none = current
better none (some m) = some m
better (some cur) (some m) = if leb m.priority cur.priority then some cur else some m

-- A loop of `match_domain`: every entry that passes the test is a candidate.
unfoldable pub scan : {K : Type 0} → (K → Bool) → List (K × M) → Option M → Option M
scan test [] best = best
scan test ((k, m) ∷ entries) best =
    scan test entries (if test k then better best (some m) else best)

-- `key.rsplit(d).next().unwrap_or(key)`
unfoldable pub last_part : ℕ → Text → Text
last_part d s = get_or (reverse (split d s)) 0 s

module _ {Regex : Type 0} (is_match : Regex → Text → Bool) where
  unfoldable pub match_domain : Text → RuleIndex Regex → Option M
  unfolding scan
  match_domain name idx =
      scan (λ re. is_match re name) idx.regex
        (scan (λ kw. contains kw (to_ascii_lowercase name)) idx.keyword
          (better (better none (lookup (to_ascii_lowercase name) idx.exact))
            (lookup_suffix name idx.suffix)))

module _ {Regex : Type 0} where
  unfoldable pub match_ip : Ip → RuleIndex Regex → Option M
  match_ip ip idx = IpIndex.lookup ip idx.cidr

  unfoldable pub match_process : Text → RuleIndex Regex → Option M
  unfolding last_part
  match_process exe idx =
      lookup (last_part 47 (last_part 92 (to_ascii_lowercase exe))) idx.process_map

  unfoldable pub match_protocol : Text → RuleIndex Regex → Option M
  match_protocol proto idx = lookup (to_ascii_lowercase proto) idx.protocol_map

  unfoldable pub match_port : ℕ → RuleIndex Regex → Option M
  unfolding port_lookup range_lookup
  match_port p idx = elim (port_lookup p idx.port_exact) [
    | some m ↦ some m
    | none ↦ range_lookup p idx.port_range
  ]

  unfoldable pub match_geoip : Text → RuleIndex Regex → Option M
  match_geoip country idx = lookup (to_ascii_uppercase country) idx.geoip_map
