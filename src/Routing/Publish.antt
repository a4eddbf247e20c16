-- ===== src/Routing/Publish.antt =====
-- The calls that change the rules of service/network-service/src/routing/engine.rs, and what their index is.
use network_client.Prelude.{◌⊎◌, ◌≡◌, Option, Text, SvcResult, ok, err}
use network_client.Routing.Rule.{Rule}
use network_client.Routing.IpIndex.{Ip}
use network_client.Routing.Index.{build}
use network_client.Routing.Engine.{RoutingEngine, add_rule, update_rule, delete_rule}

-- A call of the rule operations, with the answer of its write.
pub data Edit : Type 0 where
  add : Text → SvcResult (Unit {0}) → Rule → Edit
  update : SvcResult (Unit {0}) → Rule → Edit
  delete : SvcResult (Unit {0}) → Text → Edit

module _ {Regex : Type 0} (compile : Text → Text ⊎ Regex) (parse_ip : Text → Option Ip) where
  -- The index is the one that `build` makes of the rules.
  abbrev pub IsBuilt : RoutingEngine Regex → Type 0
  IsBuilt engine = build compile parse_ip engine.rules ≡ ok engine.index

  -- The engine after a call that may fail.
  abbrev pub or_old :
      {A : Type 0}
      → SvcResult A
      → (A → RoutingEngine Regex)
      → RoutingEngine Regex
      → RoutingEngine Regex
  or_old (ok a) f engine = f a
  or_old (err e) f engine = engine

  abbrev pub edit : Edit → RoutingEngine Regex → RoutingEngine Regex
  edit (add fresh write rule) engine =
      or_old (add_rule compile parse_ip fresh write rule engine) (λ r. r.1) engine
  edit (update write rule) engine =
      or_old (update_rule compile parse_ip write rule engine) (λ e. e) engine
  edit (delete write id) engine =
      or_old (delete_rule compile parse_ip write id engine) (λ e. e) engine
