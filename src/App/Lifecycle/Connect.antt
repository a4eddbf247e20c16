-- ===== src/App/Lifecycle/Connect.antt =====
-- `connect_locked` of app/lifecycle.rs, step by step. `connect` is it under the guard.
use network_client.Prelude.{
  Bool, true, false, ◌&&◌, Option, none, some, Text, t, ℤ, text_eq, eq_ignore_ascii_case, SvcResult,
  ok, err, already_running, config_invalid, if◌then◌else◌,
}
use network_client.Config.Schema.{RouteMode, parse_mode, mode_as_str}
use network_client.Nodes.Model.{Node}
use network_client.Nodes.Manager.{get, select}
use network_client.Proxy.Core
use network_client.Proxy.Core.{Core, StartAnswers}
use network_client.Route.Bypass.{default_bypass}
use network_client.Route.Endpoint.{local_endpoint}
use network_client.Route.Manager.{RouteManager, Answers as RouteAnswers, set_system_proxy}
use network_client.Statistics.Manager.{start_session, end_session}
use network_client.Tun.Manager.{TunAnswers, start as start_tun, stop as stop_tun}
use network_client.App.State.{
  ConnState, StateStore, starting, connecting, connected, stopping, same_state, transition,
  set_context, set_latency,
}
use network_client.App.Lifecycle.State.{
  ConnectionManager, SaveAnswers, CleanupAnswers, persist_runtime, cleanup_partial, abort_start,
}
use network_client.App.Lifecycle.Monad.{M, ◌>>=◌, ◌>>◌, pure, throw, modify}

pub record ConnectAnswers : Type 0 where
  pub save : SaveAnswers
  pub cleanup : CleanupAnswers
  pub mode_written : SvcResult (Unit {0})  -- `persist_config` of the routing engine
  pub core : StartAnswers
  pub tun : TunAnswers
  pub route : RouteAnswers
  pub session_id : Text
  pub executes : Bool
  pub latency : ℤ  -- what `test_node` measures, or else the first probe, or -1

abbrev pub put_store :
    ConnectionManager → StateStore × SvcResult (Unit {0}) → ConnectionManager × SvcResult (Unit {0})
put_store m (s, r) = (record m { store = s }, r)

-- `self.state.transition(to)?`
abbrev pub move_to : ConnState → M (Unit {0})
move_to to m = put_store m (transition to m.store)

abbrev pub has_id : Text → Option Node → Bool
has_id id none = false
has_id id (some n) = text_eq n.id id

abbrev pub same_target : Text → Text → ConnectionManager → Bool
same_target id mode m = has_id id m.active_node && eq_ignore_ascii_case m.store.inner.mode mode

-- What the switch takes down: the supervisor, the adapter, the core, the session. The system proxy
-- stays.
unfoldable pub take_down : Bool → ConnectionManager → ConnectionManager
unfolding stop_tun Core.stop end_session
take_down executes m = record m {
  monitor = false;
  tun = stop_tun m.tun;
  core = Core.stop m.core;
  stats = end_session executes m.stats;
  active_node = none;
}

switch : Bool → M (Unit {0})
unfolding transition take_down
switch executes = do move_to stopping; modify (take_down executes); move_to starting

abbrev is_busy : ConnState → Bool
is_busy ConnState.starting = true
is_busy ConnState.connecting = true
is_busy ConnState.stopping = true
is_busy _ = false

-- The first `if` of `connect_locked`.
unfoldable pub enter : Bool → Text → Text → M (Unit {0})
unfolding switch same_state
enter executes id mode m =
    if same_state m.store.inner.state connected
    then (if same_target id mode m
        then throw (already_running (t "connection")) m
        else switch executes m)
    else if is_busy m.store.inner.state
    then throw (already_running (t "connection")) m
    else pure tt m

-- `if state != Starting { transition(Starting)? }`
unfoldable pub begin : M (Unit {0})
unfolding transition same_state
begin m = if same_state m.store.inner.state starting then pure tt m else move_to starting m

-- The node must be there and enabled; otherwise the start is aborted.
resolve_from : SaveAnswers → RouteMode → SvcResult Node → M Node
unfolding abort_start
resolve_from a mode (ok n) m =
    let e = config_invalid (t "node disabled") in
    if n.enabled then pure n m else throw e (abort_start a e mode none m)
resolve_from a mode (err e) m = throw e (abort_start a e mode none m)

unfoldable pub resolve : SaveAnswers → RouteMode → Text → M Node
unfolding resolve_from get
resolve a mode id m = resolve_from a mode (get id m.nodes) m

-- `self.nodes.select(&node.id)?`
unfoldable pub select_node : Text → M (Unit {0})
unfolding select
select_node id m = let (nodes, r) = select id m.nodes in (record m { nodes = nodes }, r)

-- `self.routing.set_mode(mode)?`: the mode in memory changes also when the file cannot be written.
unfoldable pub set_mode : SvcResult (Unit {0}) → RouteMode → M (Unit {0})
set_mode written mode m = (record m { mode = mode }, written)

bind_from :
    SaveAnswers
    → RouteMode
    → Node
    → ConnectionManager × SvcResult (Unit {0})
    → ConnectionManager × SvcResult (Unit {0})
unfolding abort_start
bind_from a mode node (m, ok _) = (m, ok tt)
bind_from a mode node (m, err e) = (abort_start a e mode (some node) m, err e)

unfoldable pub bind_context : SaveAnswers → RouteMode → Node → M (Unit {0})
unfolding bind_from set_context mode_as_str
bind_context a mode node m =
    bind_from a mode node
      (put_store m (set_context connecting node.id node.name (mode_as_str mode) m.store))

-- The failure of a step that has started something: clean up, then abort.
unfoldable pub unwind :
    SaveAnswers
    → CleanupAnswers
    → RouteMode
    → Node
    → ConnectionManager × SvcResult (Unit {0})
    → ConnectionManager × SvcResult (Unit {0})
unwind a c mode node (m, ok _) = (m, ok tt)
unwind a c mode node (m, err e) = (abort_start a e mode (some node) (cleanup_partial c m), err e)

abbrev pub put_core :
    ConnectionManager → Core × SvcResult (Unit {0}) → ConnectionManager × SvcResult (Unit {0})
put_core m (c, r) = (record m { core = c }, r)

unfoldable pub start_core : ConnectAnswers → RouteMode → Node → M (Unit {0})
start_core a mode node m =
    let app = m.config.app in
    unwind a.save a.cleanup mode node (
      put_core m (
        Core.start a.core app.core.kind app.core.mixed_port app.core.start_timeout_secs node
          m.core))

-- The adapter is optional: its failure is logged, and the start goes on.
unfoldable pub raise_tun : TunAnswers → M (Unit {0})
raise_tun a m =
    if m.config.app.tun.enabled
    then (record m { tun = (start_tun a m.tun).0 }, ok tt)
    else (m, ok tt)

abbrev pub put_route :
    ConnectionManager
    → RouteManager × SvcResult (Unit {0})
    → ConnectionManager × SvcResult (Unit {0})
put_route m (r, result) = (record m { route = r }, result)

unfoldable pub set_proxy : ConnectAnswers → RouteMode → Node → M (Unit {0})
set_proxy a mode node m = unwind a.save a.cleanup mode node (
    put_route m (
      set_system_proxy a.route (local_endpoint m.config.app.core.mixed_port) default_bypass
        m.route))

-- Step 5, after the state is CONNECTED: the hint, the latency and the supervisor.
unfoldable pub finish :
    ConnectAnswers
    → RouteMode
    → Node
    → ConnectionManager × SvcResult (Unit {0})
    → ConnectionManager × SvcResult (Unit {0})
unfolding set_latency persist_runtime
finish a mode node (m, ok _) =
    let p = persist_runtime a.save connected (some node) mode m in
    (record p { store = set_latency a.latency p.store; monitor = true }, ok tt)
finish a mode node (m, err e) = (m, err e)

-- Step 4: the session, the active node and CONNECTED.
unfoldable pub publish : ConnectAnswers → RouteMode → Node → M (Unit {0})
unfolding finish
publish a mode node m =
    let m' : ConnectionManager = record m {
      stats = start_session a.executes a.session_id node.id m.stats;
      active_node = some node;
      restart_count = 0;
    } in
    finish a mode node
      (put_store m' (set_context connected node.id node.name (mode_as_str mode) m'.store))

-- From the state STARTING to CONNECTING, with the node.
unfoldable pub prepare : ConnectAnswers → RouteMode → Text → M Node
prepare a mode id = do
  begin
  node ← resolve a.save mode id
  select_node node.id
  set_mode a.mode_written mode
  bind_context a.save mode node
  pure node

-- From CONNECTING to CONNECTED.
unfoldable pub dial : ConnectAnswers → RouteMode → Node → M (Unit {0})
dial a mode node = do
  start_core a mode node
  raise_tun a.tun
  set_proxy a mode node
  publish a mode node

unfoldable pub connect : ConnectAnswers → Text → Text → M (Unit {0})
connect a id mode_text = do
  enter a.executes id mode_text
  node ← prepare a (parse_mode mode_text) id
  dial a (parse_mode mode_text) node
