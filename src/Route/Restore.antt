-- ===== src/Route/Restore.antt =====
-- `set_system_proxy` and `clear_system_proxy` of route/manager.rs together: what a session leaves
-- of the user's settings.
use network_client.Prelude.{◌≡◌, true, false, Text, ok, arith}
use network_client.Route.Registry.{Registry, SavedProxy, all_ok, query_proxy}
use network_client.Route.Endpoint.{references_endpoint}
use network_client.Route.Manager.{RouteManager, Answers, restore, set_system_proxy}

-- The settings in force are our own inbound.
abbrev pub PointsAt : Text → SavedProxy → Type 0
PointsAt host_port s = (s.direct ≡ false) × (references_endpoint s.proxy host_port ≡ true)

module _ (host_port bypass : Text) (m : RouteManager) (a b : Answers) where
  -- A second call while the snapshot is held succeeds and changes nothing, so neither the snapshot
  -- nor the registry is overwritten by the service's own settings.
  pub set_idem :
      (set_system_proxy a host_port bypass m).1 ≡ ok tt
      → let s = (set_system_proxy a host_port bypass m).0 in
        set_system_proxy b host_port bypass s ≡ (s, ok tt)
  unfolding set_system_proxy
  set_idem done = ground arith

-- The settings in force after a restore whose registry calls succeed.
pub query_proxy-restore :
    (a : Answers) (s : SavedProxy) (r : Registry)
    → a.first ≡ all_ok
    → a.second ≡ all_ok
    → let after = query_proxy true (restore a s r).0 in
      (after.direct ≡ s.direct)
      × (s.direct ≡ false → (after.proxy ≡ s.proxy) × (after.bypass ≡ s.bypass))
unfolding restore query_proxy
query_proxy-restore a s r ok₁ ok₂ = ground arith
