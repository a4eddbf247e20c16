-- ===== src/Config/Schema.antt =====
-- service/network-service/src/config/schema.rs. The one floating-point field, `switch_threshold`,
-- is left out: nothing that is modelled reads it.
use network_client.Prelude.{
  ℕ, ◌≡◌, refl, Bool, List, Text, t, text_eq, to_ascii_lowercase, ℤ, if◌then◌else◌,
}

pub data RouteMode : Type 0 where
  global smart direct : RouteMode

pub RouteMode-discrete : Discrete RouteMode
RouteMode-discrete = hlevel

unfoldable pub mode_as_str : RouteMode → Text
mode_as_str global = t "global"
mode_as_str smart = t "smart"
mode_as_str direct = t "direct"

unfoldable pub parse_mode : Text → RouteMode
unfolding text_eq to_ascii_lowercase
parse_mode s =
    let lower = to_ascii_lowercase s in
    if text_eq lower (t "global")
    then global
    else if text_eq lower (t "direct")
    then direct
    else smart

-- A mode's name is read back as that mode.
pub parse_mode-mode_as_str : (m : RouteMode) → parse_mode (mode_as_str m) ≡ m
unfolding parse_mode mode_as_str
parse_mode-mode_as_str global = refl
parse_mode-mode_as_str smart = refl
parse_mode-mode_as_str direct = refl

pub record TunConfig : Type 0 where
  pub enabled : Bool
  pub name : Text
  pub mtu : ℕ
  pub address_v4 : Text
  pub address_v6 : Text

pub record CoreConfig : Type 0 where
  pub kind : Text
  pub executable : Text
  pub work_dir : Text
  pub mixed_port : ℕ
  pub socks_port : ℕ
  pub api_port : ℕ
  pub start_timeout_secs : ℕ
  pub restart_max : ℕ

pub record DnsServer : Type 0 where
  pub kind : Text
  pub url : Text
  pub tag : Text

pub record DnsConfig : Type 0 where
  pub mode : Text
  pub servers : List DnsServer
  pub cache : Bool
  pub cache_size : ℕ

pub record AppConfig : Type 0 where
  pub mode : RouteMode
  pub tun : TunConfig
  pub core : CoreConfig
  pub dns : DnsConfig
  pub health_interval_secs : ℕ
  pub auto_start_proxy : Bool
  pub restore_previous_connection : Bool
  pub log_level : Text

pub record RuntimePersist : Type 0 where
  pub last_state : Text
  pub node_id : Text
  pub mode : Text
  pub updated_at : ℤ
