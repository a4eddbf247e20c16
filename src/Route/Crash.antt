-- ===== src/Route/Crash.antt =====
-- `restore_after_crash` of route/manager.rs: what the next start of the service makes of a session
-- that was killed.
use network_client.Prelude.{ℕ, ◌≡◌, true, none, some, Text, arith, Option-cases, inl, inr}
use network_client.Route.Registry.{SavedProxy, all_ok, query_proxy}
use network_client.Route.Endpoint.{local_endpoint}
use network_client.Route.Manager.{
  RouteManager, Answers, restore_after_crash, set_system_proxy, clear_system_proxy,
}
use network_client.Route.Restore.{PointsAt, query_proxy-restore}

-- The process dies: what is in memory is gone, the file and the registry stay.
abbrev pub crash : RouteManager → RouteManager
crash m = record m { saved = none }

module _ (host_port bypass : Text) (local_port : ℕ) (m : RouteManager) (a b : Answers) where
  -- If the calls of a connect without a snapshot succeed and the snapshot is written to the file, then
  -- after a crash the next start restores the registry exactly as a clean disconnect would have done,
  -- whatever the registry calls answer by then.
  pub restore_after_crash-set :
      m.saved ≡ none
      → a.first ≡ all_ok
      → a.stores ≡ true
      → let s = (set_system_proxy a host_port bypass m).0 in
        let r = restore_after_crash b local_port (crash s) in
        (r.0.registry ≡ (clear_system_proxy b s).registry) × (r.1 ≡ true)
  unfolding set_system_proxy clear_system_proxy restore_after_crash
  restore_after_crash-set idle ok₁ stored = ground arith

-- After the start the proxy in force is not the service's dead port, with or without a snapshot in the
-- file, if the settings can be read, the registry calls succeed and the snapshot, if any, is not the
-- dead port itself.
pub restore_after_crash_safe :
    (local_port : ℕ) (m : RouteManager) (b : Answers)
    → ((s : SavedProxy) → m.backup ≡ some s → ¬ PointsAt (local_endpoint local_port) s)
    → b.readable ≡ true
    → b.first ≡ all_ok
    → b.second ≡ all_ok
    → ¬ PointsAt
        (local_endpoint local_port)
        (query_proxy true (restore_after_crash b local_port m).0.registry)
unfolding restore_after_crash query_proxy
restore_after_crash_safe local_port m b foreign readable ok₁ ok₂ = elim (Option-cases m.backup) [
  | inl gone ↦ λ at. ground arith
  | inr (s, kept) ↦ λ at. ground (arith, foreign s kept, query_proxy-restore b s m.registry ok₁ ok₂)
]

-- With the same snapshot in memory and in the file, and a registry key that cannot be opened, a start
-- after a crash leaves the registry as it is and drops the file, if it can be removed, so no later
-- start can repeat the restore. A disconnect in the same case keeps the file.
restore_after_crash_loses :
    (local_port : ℕ) (m : RouteManager) (s : SavedProxy) (b : Answers) (e : Text)
    → m.saved ≡ some s
    → m.backup ≡ some s
    → b.removes ≡ true
    → b.first.open_key ≡ some e
    → let r = (restore_after_crash b local_port (crash m)).0 in
      let c = clear_system_proxy b m in
      (r.backup ≡ none)
      × (r.registry ≡ m.registry)
      × (c.backup ≡ some s)
      × (c.registry ≡ m.registry)
unfolding restore_after_crash clear_system_proxy
restore_after_crash_loses local_port m s b e held kept removes refused = ground arith
