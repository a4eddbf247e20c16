-- ===== src/Routing/Engine.antt =====
-- `RoutingEngine` of service/network-service/src/routing/engine.rs: the commit of a rule set and the
-- decision on a flow. The clock of ids is a parameter, and a write of a file has its answer.
use network_client.Prelude.{
  ◌⊎◌, ◌==◌, not, Bool, Option, none, some, List, [], ◌∷◌, ◌++◌, filter, any, Text, t, text_eq,
  is_empty, trim, to_ascii_uppercase, ltb, config_invalid, not_found, SvcResult, ok, err, ◌>>=◌,
  if◌then◌else◌, pos,
}
use network_client.Config.Schema.{RouteMode, smart, global}
use network_client.Config.Schema
use network_client.Routing.Rule.{Action, Rule, Flow, Decision, decision_direct, decision_proxy}
use network_client.Routing.DomainTrie.{M}
use network_client.Routing.IpIndex.{Ip, Tries}
use network_client.Routing.IpIndex
use network_client.Routing.Index.{
  RuleIndex, build, match_process, match_domain, match_ip, match_port, match_protocol, match_geoip,
}

pub record RoutingConfigPersist : Type 0 where
  pub mode : RouteMode
  pub final_action : Action
  pub home_country : Text

-- What reading rules.json and routing.json returns, an error where one is missing or does not parse.
pub record Files : Type 0 where
  pub rules : SvcResult (List Rule)
  pub routing : SvcResult RoutingConfigPersist

pub record RoutingEngine (Regex : Type 0) : Type 0 where
  pub rules : List Rule
  pub index : RuleIndex Regex
  pub geo : Tries Text
  pub cfg : RoutingConfigPersist
  pub files : Files

-- `rules[pos] = rule` at the first rule of the same id.
unfoldable pub replace_rule : Rule → List Rule → List Rule
replace_rule rule [] = []
replace_rule rule (r ∷ rules) =
    if text_eq r.id rule.id then rule ∷ rules else r ∷ replace_rule rule rules

module _ {Regex : Type 0} (compile : Text → Text ⊎ Regex) (parse_ip : Text → Option Ip) where
  -- `commit`, with the answer of the write of rules.json. A failure leaves the engine and the file as
  -- they are.
  unfoldable pub commit :
      SvcResult (Unit {0}) → List Rule → RoutingEngine Regex → SvcResult (RoutingEngine Regex)
  commit write rules engine = build compile parse_ip rules >>= λ index. write >>= λ _.
      ok (record engine {
        rules = rules;
        index = index;
        files = record engine.files { rules = ok rules };
      })

  -- The id and the priority that `add_rule` gives.
  unfoldable pub authored : Text → Rule → Rule
  authored fresh rule = record rule {
    id = (if is_empty rule.id then fresh else rule.id);
    priority = pos 1000;
  }

  unfoldable pub add_rule :
      Text
      → SvcResult (Unit {0})
      → Rule
      → RoutingEngine Regex
      → SvcResult (Rule × RoutingEngine Regex)
  unfolding authored commit
  add_rule fresh write rule engine =
      if is_empty (trim rule.value)
      then err (config_invalid (t "rule value empty"))
      else (commit write (engine.rules ++ authored fresh rule ∷ []) engine >>= λ next.
          ok (authored fresh rule, next))

  unfoldable pub update_rule :
      SvcResult (Unit {0}) → Rule → RoutingEngine Regex → SvcResult (RoutingEngine Regex)
  unfolding replace_rule commit
  update_rule write rule engine =
      if any (λ r. text_eq r.id rule.id) engine.rules
      then commit write (replace_rule rule engine.rules) engine
      else err (not_found (t "rule " ++ rule.id))

  unfoldable pub delete_rule :
      SvcResult (Unit {0}) → Text → RoutingEngine Regex → SvcResult (RoutingEngine Regex)
  unfolding commit
  delete_rule write id engine =
      commit write (filter (λ r. not (text_eq r.id id)) engine.rules) engine

-- The winner so far, with the label of its stage.
abbrev pub Winner : Type 0
Winner = Option M × Text

-- `consider`: only a greater priority replaces the winner and its label.
abbrev pub consider : Winner → Option M → Text → Winner
consider winner none label = winner
consider (none, why) (some cand) label = (some cand, why ++ label)
consider (some cur, why) (some cand) label =
    if ltb cur.priority cand.priority then (some cand, label) else (some cur, why)

-- `Option::and_then`, for the parts of a flow that may be missing.
abbrev ask : {A B : Type 0} → Option A → (A → Option B) → Option B
ask none f = none
ask (some a) f = f a

unfoldable pub consider_all : List (Text × Option M) → Winner → Winner
consider_all [] winner = winner
consider_all ((label, candidate) ∷ rest) winner =
    consider_all rest (consider winner candidate label)

-- The country of smart mode, when no rule matches.
unfoldable pub by_country : Option Text → Text → Decision
by_country none home = decision_proxy (t "smart:international")
by_country (some country) home =
    if text_eq country (t "PRIVATE")
    then decision_direct (t "private/lan")
    else if text_eq country home
    then decision_direct (t "smart:home-country")
    else decision_proxy (t "smart:international")

module _ {Regex : Type 0} where
  unfoldable pub smart_default : Option Ip → RoutingEngine Regex → Decision
  unfolding by_country
  smart_default (some ip) engine =
      by_country (IpIndex.lookup ip engine.geo) (to_ascii_uppercase engine.cfg.home_country)
  smart_default none engine = record {
    action = engine.cfg.final_action;
    rule_id = none;
    reason = t "smart:no-ip";
  }

  unfoldable pub mode_default : RouteMode → Flow Ip → RoutingEngine Regex → Decision
  unfolding smart_default
  mode_default Schema.direct flow engine = decision_direct (t "mode=direct")
  mode_default global flow engine = decision_proxy (t "mode=global")
  mode_default smart flow engine = smart_default flow.dst_ip engine

  unfoldable pub conclude : Winner → Flow Ip → RoutingEngine Regex → Decision
  unfolding mode_default
  conclude (some m, why) flow engine = record {
    action = m.action;
    rule_id = some m.rule_id;
    reason = why;
  }
  conclude (none, why) flow engine = mode_default engine.cfg.mode flow engine

module _ {Regex : Type 0} (is_match : Regex → Text → Bool) where
  -- The six stages of `decide`, in order, with the match of each.
  unfoldable pub stages : Flow Ip → RoutingEngine Regex → List (Text × Option M)
  stages flow engine =
      (t "process", ask flow.process_name (λ exe. match_process exe engine.index))
      ∷ (t "domain", ask flow.domain (λ name. match_domain is_match name engine.index))
      ∷ (t "ip", ask flow.dst_ip (λ ip. match_ip ip engine.index))
      ∷ (t "port", (if flow.dst_port == 0 then none else match_port flow.dst_port engine.index))
      ∷ (
        t "protocol",
        (if is_empty flow.protocol then none else match_protocol flow.protocol engine.index),
      )
      ∷ (
        t "geoip",
        ask flow.dst_ip (λ ip.
            ask (IpIndex.lookup ip engine.geo) (λ country. match_geoip country engine.index)),
      )
      ∷ []

  unfoldable pub decide : Flow Ip → RoutingEngine Regex → Decision
  unfolding conclude consider_all stages
  decide flow engine = conclude (consider_all (stages flow engine) (none, [])) flow engine
