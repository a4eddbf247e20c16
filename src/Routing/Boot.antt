-- ===== src/Routing/Boot.antt =====
-- `RoutingEngine` of service/network-service/src/routing/engine.rs: its start, its settings and the test of
-- an input. What the files hold is what reading them returns.
use network_client.Prelude.{
  ◌⊎◌, Bool, Option, none, some, List, [], ◌∷◌, Text, t, trim, is_empty, Json, json_object,
  SvcResult, ok, err, ◌>>=◌, config_invalid, if◌then◌else◌,
}
use network_client.Config.Schema.{RouteMode, smart, mode_as_str}
use network_client.Routing.Rule.{Action, Rule, Flow, Decision}
use network_client.Routing.Rule
use network_client.Routing.IpIndex.{Ip}
use network_client.Routing.Index.{build}
use network_client.Routing.GeoIp.{File, with_private, load_dir}
use network_client.Routing.Engine.{Files, RoutingConfigPersist, RoutingEngine, decide}

abbrev pub default_config : RoutingConfigPersist
default_config = record { mode = smart; final_action = Action.proxy; home_country = t "CN" }

-- `read_json_or`
abbrev pub read_json_or : {A : Type 0} → A → SvcResult A → A
read_json_or d (ok a) = a
read_json_or d (err e) = d

module _ {Regex : Type 0} (compile : Text → Text ⊎ Regex) (parse_ip : Text → Option Ip) where
  -- `geoip` is what reading the directory returns.
  unfoldable pub load : Files → Option (List File) → SvcResult (RoutingEngine Regex)
  unfolding load_dir with_private
  load files geoip =
      let rules = read_json_or [] files.rules in
      build compile parse_ip rules >>= λ index. ok (record {
        rules = rules;
        index = index;
        geo = load_dir parse_ip geoip with_private;
        cfg = read_json_or default_config files.routing;
        files = files;
      })

-- `persist_config`: a write that fails leaves the file as it is.
persist_config :
    {Regex : Type 0}
    → SvcResult (Unit {0})
    → RoutingEngine Regex
    → RoutingEngine Regex × SvcResult (Unit {0})
persist_config (ok _) engine =
    (record engine { files = record engine.files { routing = ok engine.cfg } }, ok tt)
persist_config (err e) engine = (engine, err e)

module _ {Regex : Type 0} where
  -- The settings in memory change also when the file cannot be written.
  unfoldable pub set_config :
      SvcResult (Unit {0})
      → RoutingConfigPersist
      → RoutingEngine Regex
      → RoutingEngine Regex × SvcResult (Unit {0})
  unfolding persist_config
  set_config written cfg engine = persist_config written (record engine { cfg = cfg })

  unfoldable pub set_mode :
      SvcResult (Unit {0})
      → RouteMode
      → RoutingEngine Regex
      → RoutingEngine Regex × SvcResult (Unit {0})
  unfolding persist_config
  set_mode written mode engine =
      persist_config written (record engine { cfg = record engine.cfg { mode = mode } })

-- The flow of an input: an address, or else a domain.
flow_of : Text → Option Ip → Flow Ip
flow_of input ip = record {
  protocol = [];
  src_ip = none;
  src_port = 0;
  dst_ip = ip;
  dst_port = 0;
  domain = elim ip [ none ↦ some input | some _ ↦ none ];
  process_id = 0;
  process_name = none;
}

-- The lower case of the `Debug` of an action.
action_text : Action → Text
action_text Rule.direct = t "direct"
action_text Rule.proxy = t "proxy"
action_text Rule.block = t "block"

id_value : Option Text → Json
id_value none = Json.null
id_value (some id) = Json.string id

answer : Text → RouteMode → Decision → Json
unfolding action_text id_value mode_as_str
answer input mode decision = json_object (
    (t "input", Json.string input)
    ∷ (t "action", Json.string (action_text decision.action))
    ∷ (t "matched_rule_id", id_value decision.rule_id)
    ∷ (t "reason", Json.string decision.reason)
    ∷ (t "mode", Json.string (mode_as_str mode))
    ∷ [])

module _ {Regex : Type 0} (is_match : Regex → Text → Bool) (parse_ip : Text → Option Ip) where
  unfoldable pub test_match : Text → RoutingEngine Regex → SvcResult Json
  unfolding flow_of answer decide
  test_match text engine =
      let input = trim text in
      if is_empty input
      then err (config_invalid (t "empty input"))
      else ok
          (answer input engine.cfg.mode (decide is_match (flow_of input (parse_ip input)) engine))
