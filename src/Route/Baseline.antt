-- ===== src/Route/Baseline.antt =====
-- The snapshots of route/manager.rs over any history of calls, and what a half-done write leaves.
use network_client.Prelude.{
  ℕ, ◌≡◌, Bool, true, Option, none, some, List, [], ◌∷◌, Text, err, route_error, t, ◌++◌, arith,
}
use network_client.Route.Registry.{Registry, SavedProxy, all_ok, query_proxy}
use network_client.Route.Endpoint.{local_endpoint, references_endpoint-proxy_spec}
use network_client.Route.Manager.{
  RouteManager, Answers, baseline, prime_from_backup, restore_after_crash, ensure_proxy_applied,
  set_system_proxy, clear_system_proxy,
}
use network_client.Route.Restore.{PointsAt, query_proxy-restore}
use network_client.Route.Crash.{crash}

-- The calls that the service makes, all for one local port, and the end of its process.
pub data Call : Type 0 where
  sets : Answers → Text → Call
  clears : Answers → Call
  primes : Call
  recovers : Answers → Call
  ensures : Answers → Text → Call
  crashes : Call

unfoldable pub step : ℕ → RouteManager → Call → RouteManager
step port m (sets a bypass) = (set_system_proxy a (local_endpoint port) bypass m).0
step port m (clears a) = clear_system_proxy a m
step port m primes = (prime_from_backup m).0
step port m (recovers a) = (restore_after_crash a port m).0
step port m (ensures a bypass) = ensure_proxy_applied a (local_endpoint port) bypass m
step port m crashes = crash m

unfoldable pub run : ℕ → RouteManager → List Call → RouteManager
run port m [] = m
run port m (c ∷ cs) = run port (step port m c) cs

-- A snapshot that is there is not the service's own proxy.
abbrev pub IsForeign : Text → Option SavedProxy → Type 0
IsForeign host_port none = Unit
IsForeign host_port (some s) = ¬ PointsAt host_port s

pub record IsClean (port : ℕ) (m : RouteManager) : Type 0 where
  pub saved : IsForeign (local_endpoint port) m.saved
  pub backup : IsForeign (local_endpoint port) m.backup

baseline-IsForeign :
    (readable : Bool) (host_port : Text) (r : Registry)
    → ¬ PointsAt host_port (baseline readable host_port r)
unfolding baseline
baseline-IsForeign readable host_port r = λ at. ground arith

step-IsClean :
    (port : ℕ) (m : RouteManager) (c : Call) → IsClean port m → IsClean port (step port m c)
unfolding step set_system_proxy clear_system_proxy prime_from_backup restore_after_crash
    ensure_proxy_applied
step-IsClean port m (sets a bypass) h =
    ground (arith, baseline-IsForeign a.readable (local_endpoint port) m.registry)
step-IsClean port m (clears a) h = ground arith
step-IsClean port m primes h = ground arith
step-IsClean port m (recovers a) h = ground arith
step-IsClean port m (ensures a bypass) h = ground arith
step-IsClean port m crashes h = record { saved = tt; backup = h.backup }

-- If neither snapshot, in memory or in the file, is the service's own proxy at first, then whatever
-- the operating system answers, and wherever the process dies, no call makes one so.
pub run-IsClean :
    (port : ℕ) (m : RouteManager) (cs : List Call) → IsClean port m → IsClean port (run port m cs)
unfolding run
run-IsClean port m [] h = h
run-IsClean port m (c ∷ cs) h = run-IsClean port (step port m c) cs (step-IsClean port m c h)

-- If neither snapshot was the service's own proxy at first, then after any history a disconnect of an
-- active session whose registry calls succeed ends with a proxy in force that is not the service's
-- own.
pub clear-run_safe :
    (port : ℕ) (m : RouteManager) (cs : List Call) (b : Answers) {s : SavedProxy}
    → IsClean port m
    → (run port m cs).saved ≡ some s
    → b.first ≡ all_ok
    → b.second ≡ all_ok
    → ¬ PointsAt
        (local_endpoint port)
        (query_proxy true (clear_system_proxy b (run port m cs)).registry)
unfolding clear_system_proxy
clear-run_safe port m cs b {s} h active ok₁ ok₂ = λ at. ground (
  arith,
  (run-IsClean port m cs h).saved,
  query_proxy-restore b s (run port m cs).registry ok₁ ok₂,
)

-- When no snapshot is held and the last of the three registry writes is refused, the call fails
-- without a snapshot, the proxy in force is the service's own port, and no later disconnect takes it
-- back.
set-half_done :
    (port : ℕ) (m : RouteManager) (a b : Answers) (bypass e : Text)
    → m.saved ≡ none
    → a.first ≡ record all_ok { set_override = some e }
    → let s = set_system_proxy a (local_endpoint port) bypass m in
      (s.1 ≡ err (route_error (t "set ProxyOverride failed: " ++ e)))
      × (clear_system_proxy b s.0 ≡ s.0)
      × PointsAt (local_endpoint port) (query_proxy true s.0.registry)
unfolding set_system_proxy clear_system_proxy query_proxy
set-half_done port m a b bypass e idle refused = ground (arith, references_endpoint-proxy_spec port)
