-- ===== src/App/Lifecycle/Steps.antt =====
-- What the steps of `connect_locked` (app/lifecycle.rs) need and give.
use network_client.Prelude.{
  ℕ, ◌≡◌, refl, ◌⊎◌, Bool, true, false, Option, none, some, Text, SvcResult, SvcError, ok, err,
  arith, text_eq_refl,
}
use network_client.Config.Schema.{RouteMode}
use network_client.Nodes.Model.{Node}
use network_client.Nodes.Manager.{get}
use network_client.Proxy.Core
use network_client.Proxy.Core.{Core, CoreStatus, StartAnswers}
use network_client.Route.Manager.{
  Answers as RouteAnswers, RouteManager, set_system_proxy, clear_system_proxy,
}
use network_client.Route.Bypass.{default_bypass}
use network_client.Route.Endpoint.{local_endpoint}
use network_client.Statistics.Manager.{StatsManager, start_session, end_session}
use network_client.Tun.Manager.{TunAnswers, stop as stop_tun}
use network_client.App.State.{
  ConnState, stopped, starting, connecting, connected, error, set_context,
}
use network_client.App.Lifecycle.State.{
  ConnectionManager, SaveAnswers, CleanupAnswers, cleanup_partial, abort_start,
}
use network_client.App.Lifecycle.Connect.{
  ConnectAnswers, enter, begin, resolve, select_node, set_mode, bind_context, start_core, raise_tun,
  set_proxy, publish, take_down, unwind, put_core, put_route,
}
use network_client.App.Lifecycle.Invariant.{is_some, IsDown, IsSettled, Inv, Failed, Fails, Ends}

-- The parts, for the components' operations.
pub stop-child :
    (c : Core) → ((Core.stop c).child ≡ none) × ((Core.stop c).status ≡ CoreStatus.stopped)
unfolding Core.stop
stop-child c = (refl, refl)

pub start-child :
    (a : StartAnswers) (kind : Text) (port secs : ℕ) (n : Node) (c : Core)
    → ((Core.start a kind port secs n c).1 ≡ ok tt
        → ((Core.start a kind port secs n c).0.status ≡ CoreStatus.running)
          × (is_some (Core.start a kind port secs n c).0.child ≡ true))
unfolding Core.start
start-child a kind port secs n c h = ground arith

pub clear-saved : (a : RouteAnswers) (r : RouteManager) → (clear_system_proxy a r).saved ≡ none
unfolding clear_system_proxy
clear-saved a r = ground arith

pub set-saved :
    (a : RouteAnswers) (host_port bypass : Text) (r : RouteManager)
    → (set_system_proxy a host_port bypass r).1 ≡ ok tt
    → is_some (set_system_proxy a host_port bypass r).0.saved ≡ true
unfolding set_system_proxy
set-saved a host_port bypass r h = ground arith

pub end-session : (b : Bool) (s : StatsManager) → (end_session b s).session ≡ none
unfolding end_session
end-session b s = ground arith

-- Before the core is started: nothing of a session is left, in the state `s`.
pub record IsReady (s : ConnState) (m : ConnectionManager) : Type 0 where
  pub at : m.store.inner.state ≡ s
  pub down : IsDown m

-- After: the child runs, and nothing else of the session is there yet.
pub record HasCore (m : ConnectionManager) : Type 0 where
  pub at : m.store.inner.state ≡ connecting
  pub child : is_some m.core.child ≡ true
  pub running : m.core.status ≡ CoreStatus.running
  pub session : m.stats.session ≡ none
  pub active : m.active_node ≡ none

-- The states in which `enter` lets a start go on.
abbrev pub IsIdle : ConnState → Type 0
IsIdle s = (s ≡ stopped) ⊎ ((s ≡ error) ⊎ (s ≡ starting))

take_down-IsDown : (b : Bool) (m : ConnectionManager) → IsDown (take_down b m)
unfolding take_down
take_down-IsDown b m = ground arith

pub enter-Ends :
    (b : Bool) (id mode : Text) (m : ConnectionManager)
    → IsSettled m
    → Ends
        (λ _ m'. IsDown m' × IsIdle m'.store.inner.state × (m'.nodes ≡ m.nodes))
        (Fails m)
        (enter b id mode m)
unfolding enter
enter-Ends b id mode m h = ground arith

pub begin-Ends :
    (m : ConnectionManager)
    → IsDown m
    → IsIdle m.store.inner.state
    → Ends (λ _ m'. IsReady starting m' × (m'.nodes ≡ m.nodes)) Failed (begin m)
unfolding begin
begin-Ends m h idle = ground arith

pub abort_start-Failed :
    (a : SaveAnswers) (e : SvcError) (mode : RouteMode) (node : Option Node) (m : ConnectionManager)
    → m.core.child ≡ none
    → m.stats.session ≡ none
    → m.tun.adapter ≡ false
    → Failed (abort_start a e mode node m)
unfolding abort_start
abort_start-Failed a e mode chosen m c s t = ground arith

pub cleanup_partial-IsDown :
    (c : CleanupAnswers) (m : ConnectionManager)
    → let m' = cleanup_partial c m in
      (m'.core.child ≡ none)
      × (m'.stats.session ≡ none)
      × (m'.tun.adapter ≡ false)
      × (m'.route.saved ≡ none)
      × (m'.store ≡ m.store)
unfolding cleanup_partial stop_tun
cleanup_partial-IsDown c m =
    ((stop-child m.core).0, end-session c.executes m.stats, refl, clear-saved c.route m.route, refl)

pub resolve-Ends :
    (a : SaveAnswers) (mode : RouteMode) (id : Text) (m : ConnectionManager)
    → IsReady starting m
    → Ends
        (λ n m'. (m' ≡ m) × (get id m.nodes ≡ ok n) × (n.enabled ≡ true))
        Failed
        (resolve a mode id m)
unfolding resolve
resolve-Ends a mode id m h = ground arith

pub select_node-Ends :
    (id : Text) (m : ConnectionManager)
    → IsReady starting m
    → Ends (λ _ m'. IsReady starting m') Failed (select_node id m)
unfolding select_node
select_node-Ends id m h = ground arith

pub set_mode-Ends :
    (written : SvcResult (Unit {0})) (mode : RouteMode) (m : ConnectionManager)
    → IsReady starting m
    → Ends (λ _ m'. IsReady starting m') Failed (set_mode written mode m)
unfolding set_mode
set_mode-Ends (ok _) mode m h = ground arith
set_mode-Ends (err e) mode m h = ground arith

pub bind_context-Ends :
    (a : SaveAnswers) (mode : RouteMode) (n : Node) (m : ConnectionManager)
    → IsReady starting m
    → Ends (λ _ m'. IsReady connecting m') Failed (bind_context a mode n m)
unfolding bind_context
bind_context-Ends a mode n m h = ground arith

-- A failed step is cleaned up after, whatever it was.
pub unwind-Ends :
    (P : ConnectionManager → Type 0) (a : SaveAnswers) (c : CleanupAnswers) (mode : RouteMode)
    (n : Node) (r : ConnectionManager × SvcResult (Unit {0}))
    → (r.1 ≡ ok tt → P r.0)
    → Ends (λ _ m'. P m') Failed (unwind a c mode n r)
unfolding unwind
unwind-Ends P a c mode n (m, ok _) h = h refl
unwind-Ends P a c mode n (m, err e) h =
    let (child, session, adapter, _, _) = cleanup_partial-IsDown c m in
    abort_start-Failed a e mode (some n) (cleanup_partial c m) child session adapter

pub start_core-Ends :
    (a : ConnectAnswers) (mode : RouteMode) (n : Node) (m : ConnectionManager)
    → IsReady connecting m
    → Ends (λ _ m'. HasCore m') Failed (start_core a mode n m)
unfolding start_core
start_core-Ends a mode n m h =
    let core = m.config.app.core in
    unwind-Ends HasCore a.save a.cleanup mode n
      (put_core m (Core.start a.core core.kind core.mixed_port core.start_timeout_secs n m.core))
      λ started.
        let (running, child) =
          start-child a.core core.kind core.mixed_port core.start_timeout_secs n m.core started in
        record {
          at = h.at;
          child = child;
          running = running;
          session = h.down.session;
          active = h.down.active;
        }

pub raise_tun-Ends :
    (a : TunAnswers) (m : ConnectionManager)
    → HasCore m
    → Ends (λ _ m'. HasCore m') Failed (raise_tun a m)
unfolding raise_tun
raise_tun-Ends a m h = ground arith

pub set_proxy-Ends :
    (a : ConnectAnswers) (mode : RouteMode) (n : Node) (m : ConnectionManager)
    → HasCore m
    → Ends (λ _ m'. HasCore m' × (is_some m'.route.saved ≡ true)) Failed (set_proxy a mode n m)
unfolding set_proxy
set_proxy-Ends a mode n m h =
    unwind-Ends (λ m'. HasCore m' × (is_some m'.route.saved ≡ true)) a.save a.cleanup mode n
      (put_route m (
        set_system_proxy a.route (local_endpoint m.config.app.core.mixed_port) default_bypass
          m.route))
      λ done. (
        record {
          at = h.at;
          child = h.child;
          running = h.running;
          session = h.session;
          active = h.active;
        },
        set-saved a.route (local_endpoint m.config.app.core.mixed_port) default_bypass m.route done,
      )

start-session :
    (b : Bool) (id node_id : Text) (s : StatsManager)
    → is_some (start_session b id node_id s).session ≡ true
unfolding start_session
start-session b id node_id s = refl

pub publish-Ends :
    (a : ConnectAnswers) (mode : RouteMode) (n : Node) (m : ConnectionManager)
    → HasCore m
    → is_some m.route.saved ≡ true
    → Ends
        (λ _ m'. Inv m' × (m'.store.inner.state ≡ connected) × (m'.active_node ≡ some n))
        Failed
        (publish a mode n m)
unfolding publish set_context
publish-Ends a mode n m h s =
    ground (arith, text_eq_refl n.id, start-session a.executes a.session_id n.id m.stats)
