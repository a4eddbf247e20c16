-- ===== src/Config/Saves.antt =====
-- What the saves of config/manager.rs leave in memory and in the file.
use network_client.Prelude.{
  ◌≡◌, ap, ◌∙◌, Option, ◌>>=◌, List, [], ◌∷◌, SvcResult, ok, arith, ◌≤◌, ◌<◌,
}
use network_client.Config.Schema.{AppConfig, RuntimePersist}
use network_client.Config.Manager.{
  ConfigManager, validate_app, save_app, save_runtime, load, load_app_config, load_runtime,
}

-- A save, with the answer of its write.
pub data Save : Type 0 where
  saves_app : SvcResult (Unit {0}) → AppConfig → Save
  saves_runtime : SvcResult (Unit {0}) → RuntimePersist → Save

unfoldable pub save : ConfigManager → Save → ConfigManager
save c (saves_app written cfg) = (save_app written cfg c).0
save c (saves_runtime written rt) = (save_runtime written rt c).0

unfoldable pub save_each : ConfigManager → List Save → ConfigManager
save_each c [] = c
save_each c (s ∷ ss) = save_each (save c s) ss

-- The configuration in force passes the validation, and the memory is what a start reads of the files.
pub record IsSound (c : ConfigManager) : Type 0 where
  pub valid : validate_app c.app ≡ ok tt
  pub app : load_app_config c.app_file ≡ c.app
  pub runtime : load_runtime c.runtime_file ≡ c.runtime

save-IsSound : (c : ConfigManager) (s : Save) → IsSound c → IsSound (save c s)
unfolding save save_app save_runtime
save-IsSound c (saves_app written cfg) h = ground arith
save-IsSound c (saves_runtime written rt) h = ground arith

save_each-IsSound : (c : ConfigManager) (ss : List Save) → IsSound c → IsSound (save_each c ss)
unfolding save_each
save_each-IsSound c [] h = h
save_each-IsSound c (s ∷ ss) h = save_each-IsSound (save c s) ss (save-IsSound c s h)

bounds_of_valid :
    (cfg : AppConfig)
    → validate_app cfg ≡ ok tt
    → (576 ≤ cfg.tun.mtu) × (cfg.tun.mtu ≤ 9000) × (0 < cfg.core.mixed_port)
unfolding validate_app
bounds_of_valid cfg h = ground arith

load-IsSound :
    (app_file : Option AppConfig) (runtime_file : Option RuntimePersist) (c : ConfigManager)
    → load app_file runtime_file ≡ ok c
    → IsSound c
unfolding load
load-IsSound app_file runtime_file c h = ground arith

loads_again : (c : ConfigManager) → IsSound c → load c.app_file c.runtime_file ≡ ok c
unfolding load
loads_again c h =
    ap
      (λ a.
        validate_app a >>= λ _. ok (record c { app = a; runtime = load_runtime c.runtime_file }))
      h.app
    ∙ ap (λ v. v >>= λ _. ok (record c { runtime = load_runtime c.runtime_file })) h.valid
    ∙ ap (λ r. ok (record c { runtime = r })) h.runtime

-- After a start from any files that succeeds, whatever is saved, valid or not, and whichever writes fail, a
-- start from the files that are then there gives the same memory: it never runs ahead of the files, and the
-- tunnel's MTU stays within 576 and 9000 and the local port is never 0.
pub load-save_each :
    (app_file : Option AppConfig) (runtime_file : Option RuntimePersist) (c : ConfigManager)
    (ss : List Save)
    → load app_file runtime_file ≡ ok c
    → let e = save_each c ss in
      (load e.app_file e.runtime_file ≡ ok e)
      × (576 ≤ e.app.tun.mtu)
      × (e.app.tun.mtu ≤ 9000)
      × (0 < e.app.core.mixed_port)
load-save_each app_file runtime_file c ss h =
    let e = save_each c ss in
    let k = save_each-IsSound c ss (load-IsSound app_file runtime_file c h) in
    let (low, high, port) = bounds_of_valid e.app k.valid in (loads_again e k, low, high, port)
