-- ===== src/Config/Manager.antt =====
-- `validate_app`, and the start and the setters of `ConfigManager`, of
-- service/network-service/src/config/manager.rs. A file is the value that reading it gives.
-- `written` is what `atomic_write_json` answers: `ok`, or the error that it returns.
use network_client.Prelude.{
  ◌||◌, ◌++◌, List, [], ◌∷◌, t, text_eq, SvcResult, ok, err, config_invalid, ltb, ◌==◌,
  if◌then◌else◌, ◌>>◌, ◌>>=◌, Option, none, some,
}
use network_client.Config.Schema.{AppConfig, DnsServer, RuntimePersist}
use network_client.Config.Defaults.{default_app, default_runtime}

check_servers : List DnsServer → SvcResult (Unit {0})
check_servers [] = ok tt
check_servers (s ∷ ss) =
    if text_eq s.kind (t "udp") || text_eq s.kind (t "doh")
    then check_servers ss
    else err (config_invalid (t "unknown dns server type: " ++ s.kind))

unfoldable pub validate_app : AppConfig → SvcResult (Unit {0})
unfolding check_servers
validate_app cfg =
    if ltb cfg.tun.mtu 576 || ltb 9000 cfg.tun.mtu
    then err (config_invalid (t "tun.mtu out of [576, 9000]"))
    else if (cfg.core.mixed_port == 0) || ltb 1_000_000 cfg.dns.cache_size
    then err (config_invalid (t "core/dns config invalid"))
    else check_servers cfg.dns.servers

-- The configuration in memory and in the files, of which one may be missing or unreadable.
pub record ConfigManager : Type 0 where
  pub app : AppConfig
  pub app_file : Option AppConfig
  pub runtime : RuntimePersist
  pub runtime_file : Option RuntimePersist

abbrev or_default : {A : Type 0} → A → Option A → A
or_default d none = d
or_default d (some a) = a

abbrev pub load_app_config : Option AppConfig → AppConfig
load_app_config file = or_default default_app file

abbrev pub load_runtime : Option RuntimePersist → RuntimePersist
load_runtime file = or_default default_runtime file

-- `load` and `load_with_root`, from what the two files hold.
unfoldable pub load : Option AppConfig → Option RuntimePersist → SvcResult ConfigManager
load app_file runtime_file =
    let app = load_app_config app_file in
    validate_app app >>= λ _. ok (record {
      app = app;
      app_file = app_file;
      runtime = load_runtime runtime_file;
      runtime_file = runtime_file;
    })

save_app_from :
    AppConfig → ConfigManager → SvcResult (Unit {0}) → ConfigManager × SvcResult (Unit {0})
save_app_from cfg c (ok _) = (record c { app = cfg; app_file = some cfg }, ok tt)
save_app_from cfg c (err e) = (c, err e)

unfoldable pub save_app :
    SvcResult (Unit {0}) → AppConfig → ConfigManager → ConfigManager × SvcResult (Unit {0})
unfolding save_app_from
save_app written cfg c = save_app_from cfg c (validate_app cfg >> written)

save_runtime_from :
    SvcResult (Unit {0}) → RuntimePersist → ConfigManager → ConfigManager × SvcResult (Unit {0})
save_runtime_from (ok _) rt c = (record c { runtime = rt; runtime_file = some rt }, ok tt)
save_runtime_from (err e) rt c = (c, err e)

unfoldable pub save_runtime :
    SvcResult (Unit {0}) → RuntimePersist → ConfigManager → ConfigManager × SvcResult (Unit {0})
unfolding save_runtime_from
save_runtime written rt c = save_runtime_from written rt c
