-- ===== src/Config/Defaults.antt =====
-- The defaults of service/network-service/src/config/schema.rs.
use network_client.Prelude.{true, false, [], ◌∷◌, t, pos}
use network_client.Config.Schema.{
  TunConfig, CoreConfig, DnsConfig, AppConfig, RuntimePersist, smart,
}

abbrev pub default_tun : TunConfig
default_tun = record {
  enabled = false;
  name = t "NetworkClient";
  mtu = 1420;
  address_v4 = t "10.255.0.1/24";
  address_v6 = t "fdfe:dcba:9876::1/126";
}

abbrev pub default_core : CoreConfig
default_core = record {
  kind = t "sing-box";
  executable = t "bin/sing-box.exe";
  work_dir = t "core";
  mixed_port = 2080;
  socks_port = 2081;
  api_port = 2082;
  start_timeout_secs = 10;
  restart_max = 3;
}

abbrev pub default_dns : DnsConfig
default_dns = record {
  mode = t "smart";
  servers =
      record { kind = t "udp"; url = t "223.5.5.5:53"; tag = t "direct" }
      ∷ record { kind = t "doh"; url = t "https://1.1.1.1/dns-query"; tag = t "proxy" }
      ∷ [];
  cache = true;
  cache_size = 4096;
}

abbrev pub default_app : AppConfig
default_app = record {
  mode = smart;
  tun = default_tun;
  core = default_core;
  dns = default_dns;
  health_interval_secs = 45;
  auto_start_proxy = false;
  restore_previous_connection = false;
  log_level = t "info";
}

abbrev pub default_runtime : RuntimePersist
default_runtime = record { last_state = []; node_id = []; mode = []; updated_at = pos 0 }
