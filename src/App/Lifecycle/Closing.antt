-- ===== src/App/Lifecycle/Closing.antt =====
-- `disconnect` of app/lifecycle.rs, from every settled state.
use network_client.Prelude.{◌≡◌, ◌≢◌, ◌⊎◌, Option, none, some, ok, arith}
use network_client.Route.Registry.{Registry, SavedProxy}
use network_client.Route.Manager.{
  Answers as RouteAnswers, RouteManager, restore, clear_system_proxy,
}
use network_client.Tun.Manager.{stop as stop_tun}
use network_client.App.State.{stopped, starting, transition}
use network_client.App.Lifecycle.State.{
  ConnectionManager, SaveAnswers, CleanupAnswers, persist_runtime, cleanup_partial,
}
use network_client.App.Lifecycle.Disconnect.{disconnect}
use network_client.App.Lifecycle.Invariant.{IsDown, Inv}
use network_client.App.Lifecycle.Steps.{stop-child, clear-saved, end-session}

-- From a settled manager a disconnect always succeeds and leaves it settled. From CONNECTED and ERROR
-- it ends in STOPPED with nothing of the session left and the snapshot of the user's proxy settings
-- consumed. From STOPPED and STARTING it changes nothing at all.
pub disconnect_lem :
    (a : SaveAnswers) (c : CleanupAnswers) (m : ConnectionManager)
    → Inv m
    → let m' = (disconnect a c m).0 in
      ((disconnect a c m).1 ≡ ok tt)
      × Inv m'
      × (((m.store.inner.state ≢ stopped)
            × (m.store.inner.state ≢ starting)
            × (m'.store.inner.state ≡ stopped)
            × IsDown m'
            × (m'.route.saved ≡ none))
          ⊎ (((m.store.inner.state ≡ stopped) ⊎ (m.store.inner.state ≡ starting)) × (m' ≡ m)))
unfolding disconnect cleanup_partial persist_runtime transition stop_tun
disconnect_lem a c m h =
    ground (arith, stop-child m.core, clear-saved c.route m.route, end-session c.executes m.stats)

-- The registry after the writes that bring a snapshot back, if there is one.
abbrev pub given_back : RouteAnswers → Option SavedProxy → Registry → Registry
given_back a none r = r
given_back a (some s) r = (restore a s r).0

clear-given_back :
    (a : RouteAnswers) (r : RouteManager)
    → (clear_system_proxy a r).registry ≡ given_back a r.saved r.registry
unfolding clear_system_proxy
clear-given_back a r = ground arith

-- What a disconnect of a settled manager does to the user's proxy settings.
abbrev pub IsClosing : CleanupAnswers → ConnectionManager → ConnectionManager → Type 0
IsClosing c m m' =
    ((m.store.inner.state ≡ starting) × (m' ≡ m))
    ⊎ ((m'.store.inner.state ≡ stopped)
        × (m'.route.saved ≡ none)
        × (m'.route.registry ≡ given_back c.route m.route.saved m.route.registry))

pub disconnect-IsClosing :
    (a : SaveAnswers) (c : CleanupAnswers) (m : ConnectionManager)
    → Inv m
    → IsClosing c m (disconnect a c m).0
unfolding disconnect cleanup_partial persist_runtime transition
disconnect-IsClosing a c m h =
    ground (arith, clear-saved c.route m.route, clear-given_back c.route m.route)
