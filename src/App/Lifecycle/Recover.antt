-- ===== src/App/Lifecycle/Recover.antt =====
-- `recover` and `startup_recover` of app/lifecycle.rs.
use network_client.Prelude.{
  ◌+◌, ◌%◌, ◌^◌, Bool, true, false, ◌&&◌, Option, none, some, Text, t, text_eq, is_empty, SvcResult,
  ok, err, leb, if◌then◌else◌,
}
use network_client.Config.Schema.{RouteMode, smart, parse_mode, mode_as_str}
use network_client.Nodes.Model.{Node}
use network_client.Nodes.Manager.{get, select}
use network_client.Proxy.Core
use network_client.Proxy.Core.{Core, StartAnswers, HealthAnswers, is_healthy}
use network_client.Route.Bypass.{default_bypass}
use network_client.Route.Endpoint.{local_endpoint}
use network_client.Route.Manager.{
  Answers as RouteAnswers, is_ok, prime_from_backup, restore_after_crash, ensure_proxy_applied,
}
use network_client.App.State.{
  stopped, connected, reconnecting, error, as_str, same_state, transition, set_context, fail,
}
use network_client.App.Lifecycle.State.{
  ConnectionManager, SaveAnswers, CleanupAnswers, persist_runtime, cleanup_partial,
}
use network_client.App.Lifecycle.Connect.{ConnectAnswers, connect}

pub record RecoverAnswers : Type 0 where
  pub save : SaveAnswers
  pub cleanup : CleanupAnswers
  pub core : StartAnswers  -- the restart on the same node
  pub health : HealthAnswers
  pub choice : SvcResult (Option Text)  -- `smart_select`
  pub other_core : StartAnswers  -- the start on the other node
  pub other_health : HealthAnswers

unfoldable pub mark_recovered : SaveAnswers → Node → ConnectionManager → ConnectionManager
unfolding persist_runtime
mark_recovered a node m =
    let mode = m.store.inner.mode in
    let s = (set_context connected node.id node.name mode m.store).0 in
    persist_runtime a connected (some node) (parse_mode mode)
      (record m { restart_count = 0; store = s })

-- The end of a failed recovery.
unfoldable pub give_up : RecoverAnswers → Node → ConnectionManager → ConnectionManager
unfolding fail persist_runtime
give_up a node m =
    let c : ConnectionManager = record (cleanup_partial a.cleanup m) { active_node = none } in
    let s = fail error (t "601") (t "proxy core unreachable after recovery attempts") c.store in
    persist_runtime a.save error (some node) (parse_mode s.inner.mode) (record c { store = s })

-- `core.restart(..).is_ok() && core.health_check().is_healthy()`, with the core it leaves.
abbrev pub works : HealthAnswers → Core × SvcResult (Unit {0}) → Bool
works h (c, r) = is_ok r && is_healthy (Core.health_check h c)

unfoldable pub retry : RecoverAnswers → Node → ConnectionManager → ConnectionManager
retry a node m =
    let app = m.config.app in
    let r =
      Core.restart a.core app.core.kind app.core.mixed_port app.core.start_timeout_secs node
        m.core in
    let m' : ConnectionManager = record m { core = r.0 } in
    if works a.health r then mark_recovered a.save node m' else give_up a node m'

unfoldable pub switch_to :
    RecoverAnswers → Node → Text → SvcResult Node → ConnectionManager → ConnectionManager
switch_to a node new_id (err _) m = give_up a node m
switch_to a node new_id (ok new_node) m =
    let app = m.config.app in
    let r =
      Core.start a.other_core app.core.kind app.core.mixed_port app.core.start_timeout_secs new_node
        (Core.stop m.core) in
    let m' : ConnectionManager = record m { core = r.0 } in
    if works a.other_health r
    then mark_recovered a.save new_node
        (record m' { nodes = (select new_id m'.nodes).0; active_node = some new_node })
    else give_up a node m'

unfoldable pub choose :
    RecoverAnswers → Node → SvcResult (Option Text) → ConnectionManager → ConnectionManager
choose a node (ok (some new_id)) m =
    if text_eq new_id node.id
    then give_up a node m
    else switch_to a node new_id (get new_id m.nodes) m
choose a node (ok none) m = give_up a node m
choose a node (err _) m = give_up a node m

abbrev pub is_smart : RouteMode → Bool
is_smart smart = true
is_smart _ = false

unfoldable pub recover_node : RecoverAnswers → Node → ConnectionManager → ConnectionManager
recover_node a node m =
    let attempt = m.restart_count + 1 in
    let m' : ConnectionManager = record m {
      restart_count = attempt % 2 ^ 32;
      store = (transition reconnecting m.store).0;
    } in
    if leb attempt m.config.app.core.restart_max
    then retry a node m'
    else if is_smart m.mode
    then choose a node a.choice m'
    else give_up a node m'

recover_from : RecoverAnswers → Option Node → ConnectionManager → ConnectionManager
unfolding same_state
recover_from a none m = m
recover_from a (some node) m =
    if same_state m.store.inner.state connected then recover_node a node m else m

unfoldable pub recover : RecoverAnswers → ConnectionManager → ConnectionManager
unfolding recover_from
recover a m = recover_from a m.active_node m

pub record StartupAnswers : Type 0 where
  pub connect : ConnectAnswers
  pub ensure : RouteAnswers
  pub restore : RouteAnswers
  pub save : SaveAnswers

-- `restored`: the automatic reconnect, and what it did.
abbrev pub enabled_node : SvcResult Node → Option Node
enabled_node (err _) = none
enabled_node (ok n) = if n.enabled then some n else none

unfoldable pub after_connect :
    StartupAnswers → ConnectionManager × SvcResult (Unit {0}) → ConnectionManager × Bool
after_connect a (m, ok _) = (
  record m {
    route =
        ensure_proxy_applied a.ensure (local_endpoint m.config.app.core.mixed_port) default_bypass
          m.route;
  },
  true,
)
after_connect a (m, err _) = (m, false)

unfoldable pub reconnect :
    StartupAnswers → RouteMode → Option Node → ConnectionManager → ConnectionManager × Bool
reconnect a mode none m = (m, false)
reconnect a mode (some node) m = after_connect a (
    connect a.connect node.id (mode_as_str mode)
      (record m { route = (prime_from_backup m.route).0 }))

unfoldable pub finish_startup :
    StartupAnswers → RouteMode → ConnectionManager × Bool → ConnectionManager
finish_startup a mode (m, true) = m
finish_startup a mode (m, false) =
    let port = m.config.app.core.mixed_port in
    persist_runtime a.save stopped none mode
      (record m { route = (restore_after_crash a.restore port m.route).0 })

unfoldable pub startup_recover : StartupAnswers → ConnectionManager → ConnectionManager
startup_recover a m =
    let runtime = m.config.runtime in
    let mode = parse_mode runtime.mode in
    let was_connected = text_eq runtime.last_state (as_str connected) in
    if is_empty runtime.node_id
    then m
    else finish_startup a mode (
        if was_connected && m.config.app.restore_previous_connection
        then reconnect a mode (enabled_node (get runtime.node_id m.nodes)) m
        else (m, false))
