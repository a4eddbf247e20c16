-- ===== src/Tests/Route.antt =====
-- The system proxy at a corporate machine's settings.
use network_client.Prelude.{◌≡◌, refl, true, some, List, [], ◌∷◌, t, split, text_eq, trim, arith}
use network_client.Route.Registry.{query_proxy}
use network_client.Route.Endpoint.{references_endpoint, local_endpoint}
use network_client.Route.Manager.{
  restore_after_crash, set_system_proxy, clear_system_proxy, baseline,
}
use network_client.Route.Restore.{PointsAt}
use network_client.Route.Crash.{crash, restore_after_crash-set, restore_after_crash_safe}
use network_client.Route.Baseline.{
  Call, sets, crashes, recovers, step, run, IsClean, run-IsClean, clear-run_safe,
}
use network_client.Tests.Data.{idle_route, routes, corporate}

abbrev calls : List Call
calls = sets routes (t "<local>") ∷ crashes ∷ recovers routes ∷ sets routes (t "<local>") ∷ []

idle-IsClean : IsClean 2080 idle_route
idle-IsClean = record { saved = tt; backup = tt }

restore_after_crash-set_example :
    let s = (set_system_proxy routes (local_endpoint 2080) (t "<local>") idle_route).0 in
    let r = restore_after_crash routes 2080 (crash s) in
    (r.0.registry ≡ (clear_system_proxy routes s).registry) × (r.1 ≡ true)
restore_after_crash-set_example =
    restore_after_crash-set (local_endpoint 2080) (t "<local>") 2080 idle_route routes routes refl
      refl refl

restore_after_crash_safe_example :
    ¬ PointsAt
      (local_endpoint 2080)
      (query_proxy true (restore_after_crash routes 2080 idle_route).0.registry)
restore_after_crash_safe_example =
    restore_after_crash_safe 2080 idle_route routes (λ s h. ground arith) refl refl refl

run-IsClean_example : IsClean 2080 (run 2080 idle_route calls)
run-IsClean_example = run-IsClean 2080 idle_route calls idle-IsClean

calls-saved : (run 2080 idle_route calls).saved ≡ some (query_proxy true corporate)
unfolding run step set_system_proxy restore_after_crash baseline query_proxy references_endpoint
    local_endpoint split text_eq trim
calls-saved = refl

clear-run_safe_example :
    ¬ PointsAt
      (local_endpoint 2080)
      (query_proxy true (clear_system_proxy routes (run 2080 idle_route calls)).registry)
clear-run_safe_example =
    clear-run_safe 2080 idle_route calls routes {s = query_proxy true corporate} idle-IsClean
      calls-saved refl refl
