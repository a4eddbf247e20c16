-- ===== src/App/Lifecycle/State.antt =====
-- The state of `ConnectionManager`, and the pieces that its operations share.
use network_client.Prelude.{
  ℕ, Bool, Option, none, some, [], Text, ℤ, SvcResult, SvcError, to_string, error_code, decimal,
}
use network_client.Config.Schema.{RouteMode, RuntimePersist, mode_as_str}
use network_client.Config.Manager.{ConfigManager, save_runtime}
use network_client.Nodes.Model.{Node}
use network_client.Nodes.Manager.{NodeManager}
use network_client.Proxy.Core
use network_client.Proxy.Core.{Core}
use network_client.Route.Manager.{RouteManager, Answers as RouteAnswers, clear_system_proxy}
use network_client.Statistics.Manager.{StatsManager, end_session}
use network_client.Tun.Manager.{TunManager, stop as stop_tun}
use network_client.App.State.{ConnState, StateStore, as_str, error, fail}

-- `mode` is the mode of the routing configuration, `monitor` whether a supervisor task is held.
pub record ConnectionManager : Type 0 where
  pub config : ConfigManager
  pub nodes : NodeManager
  pub mode : RouteMode
  pub core : Core
  pub route : RouteManager
  pub tun : TunManager
  pub stats : StatsManager
  pub store : StateStore
  pub active_node : Option Node
  pub monitor : Bool
  pub restart_count : ℕ  -- u32

pub record SaveAnswers : Type 0 where
  pub written : SvcResult (Unit {0})  -- `atomic_write_json` of the run-time hint
  pub now : ℤ

abbrev node_id : Option Node → Text
node_id none = []
node_id (some n) = n.id

-- A failed save is only logged.
unfoldable pub persist_runtime :
    SaveAnswers → ConnState → Option Node → RouteMode → ConnectionManager → ConnectionManager
persist_runtime a state node mode m =
    let rt : RuntimePersist = record {
      last_state = as_str state;
      node_id = node_id node;
      mode = mode_as_str mode;
      updated_at = a.now;
    } in
    record m { config = (save_runtime a.written rt m.config).0 }

pub record CleanupAnswers : Type 0 where
  pub route : RouteAnswers
  pub executes : Bool  -- the database executes the statement

unfoldable pub cleanup_partial : CleanupAnswers → ConnectionManager → ConnectionManager
cleanup_partial a m = record m {
  tun = stop_tun m.tun;
  route = clear_system_proxy a.route m.route;
  core = Core.stop m.core;
  stats = end_session a.executes m.stats;
}

unfoldable pub abort_start :
    SaveAnswers → SvcError → RouteMode → Option Node → ConnectionManager → ConnectionManager
unfolding persist_runtime fail
abort_start a e mode node m =
    let failed : ConnectionManager = record m {
      store = fail error (decimal (error_code e)) (to_string e) m.store;
    } in
    record (persist_runtime a error node mode failed) { active_node = none }
