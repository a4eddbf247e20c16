-- ===== src/Route/Manager.antt =====
-- `RouteManager` of route/manager.rs. Its state here is the snapshot in memory, the snapshot in the
-- file (`none` stands for a file that is missing or does not parse) and the registry. The fields of
-- `Answers` are what the operating system says to the calls of one method.
use network_client.Prelude.{
  ℕ, Bool, true, false, not, ◌&&◌, ◌||◌, Option, none, some, Text, text_eq, is_empty, SvcResult, ok,
  err, if◌then◌else◌,
}
use network_client.Route.Registry.{
  Registry, SavedProxy, ApplyAnswers, direct_proxy, query_proxy, apply_proxy,
}
use network_client.Route.Endpoint.{references_endpoint, proxy_spec, local_endpoint}

pub record RouteManager : Type 0 where
  pub saved : Option SavedProxy
  pub backup : Option SavedProxy
  pub registry : Registry

pub record Answers : Type 0 where
  pub readable : Bool  -- the key opens for `query_proxy`
  pub first : ApplyAnswers  -- the first call of `apply_proxy`
  pub second : ApplyAnswers  -- the second one
  pub stores : Bool  -- `atomic_write_json` succeeds
  pub removes : Bool  -- `remove_file` succeeds

-- `result.is_ok()`
abbrev pub is_ok {ℓ} : {A : Type ℓ} → SvcResult A → Bool
is_ok (ok _) = true
is_ok (err _) = false

is_active : RouteManager → Bool
is_active m = elim m.saved [ none ↦ false | some _ ↦ true ]

unfoldable pub store_backup : Bool → SavedProxy → RouteManager → RouteManager
store_backup stores saved m = if stores then record m { backup = some saved } else m

unfoldable pub drop_backup : Bool → RouteManager → RouteManager
drop_backup removes m = if removes then record m { backup = none } else m

prime : Option SavedProxy → RouteManager → RouteManager × Bool
prime (some saved) m = (record m { saved = some saved }, true)
prime none m = (m, false)

unfoldable pub prime_from_backup : RouteManager → RouteManager × Bool
unfolding prime
prime_from_backup m = prime m.backup m

-- The writes by which a snapshot comes back, the same in `restore_after_crash` and in
-- `clear_system_proxy`.
then_switch_off : ApplyAnswers → Registry × SvcResult (Unit {0}) → Registry × SvcResult (Unit {0})
unfolding apply_proxy
then_switch_off second (r, ok _) = apply_proxy second none r
then_switch_off second (r, err e) = (r, err e)

unfoldable pub restore : Answers → SavedProxy → Registry → Registry × SvcResult (Unit {0})
unfolding apply_proxy then_switch_off
restore a saved r =
    if saved.direct
    then (if not (is_empty saved.proxy) || not (is_empty saved.bypass)
        then then_switch_off a.second (apply_proxy a.first (some (saved.proxy, saved.bypass)) r)
        else apply_proxy a.first none r)
    else apply_proxy a.first (some (saved.proxy, saved.bypass)) r

-- The file is dropped also when the restore failed.
recover_backup : Answers → Option SavedProxy → ℕ → RouteManager → RouteManager × Bool
unfolding query_proxy apply_proxy restore drop_backup
recover_backup a (some saved) local_port m =
    (drop_backup a.removes (record m { registry = (restore a saved m.registry).0 }), true)
recover_backup a none local_port m =
    let current = query_proxy a.readable m.registry in
    if not current.direct && references_endpoint current.proxy (local_endpoint local_port)
    then (record m { registry = (apply_proxy a.first none m.registry).0 }, true)
    else (m, false)

unfoldable pub restore_after_crash : Answers → ℕ → RouteManager → RouteManager × Bool
unfolding recover_backup
restore_after_crash a local_port m = recover_backup a m.backup local_port m

unfoldable pub ensure_proxy_applied : Answers → Text → Text → RouteManager → RouteManager
unfolding query_proxy apply_proxy
ensure_proxy_applied a host_port bypass m =
    let current = query_proxy a.readable m.registry in
    if current.direct || not (text_eq current.proxy (proxy_spec host_port))
    then record m {
      registry = (apply_proxy a.first (some (proxy_spec host_port, bypass)) m.registry).0;
    }
    else m

-- What `set_system_proxy` takes for the user's own settings.
unfoldable pub baseline : Bool → Text → Registry → SavedProxy
unfolding query_proxy
baseline readable host_port r =
    let previous = query_proxy readable r in
    if not previous.direct && references_endpoint previous.proxy host_port
    then direct_proxy
    else previous

remember :
    Answers
    → SavedProxy
    → RouteManager
    → Registry × SvcResult (Unit {0})
    → RouteManager × SvcResult (Unit {0})
unfolding store_backup
remember a previous m (r, err e) = (record m { registry = r }, err e)
remember a previous m (r, ok _) =
    (store_backup a.stores previous (record m { registry = r; saved = some previous }), ok tt)

set_from :
    Option SavedProxy → Answers → Text → Text → RouteManager → RouteManager × SvcResult (Unit {0})
unfolding baseline apply_proxy remember
set_from (some _) a host_port bypass m = (m, ok tt)
set_from none a host_port bypass m =
    remember a (baseline a.readable host_port m.registry) m
      (apply_proxy a.first (some (proxy_spec host_port, bypass)) m.registry)

unfoldable pub set_system_proxy :
    Answers → Text → Text → RouteManager → RouteManager × SvcResult (Unit {0})
unfolding set_from
set_system_proxy a host_port bypass m = set_from m.saved a host_port bypass m

clear_from : Option SavedProxy → Answers → RouteManager → RouteManager
unfolding restore drop_backup
clear_from none a m = m
clear_from (some saved) a m =
    let (r, result) = restore a saved m.registry in
    let after : RouteManager = record m { saved = none; registry = r } in
    if is_ok result then drop_backup a.removes after else after

unfoldable pub clear_system_proxy : Answers → RouteManager → RouteManager
unfolding clear_from
clear_system_proxy a m = clear_from m.saved a m
