-- ===== src/Nodes/Model.antt =====
-- service/network-service/src/nodes/model.rs.
use network_client.Prelude.{
  ℕ, Bool, not, ◌++◌, List, [], ◌∷◌, Text, t, text_eq, is_empty, trim, any, Json, ℤ, SvcResult, ok,
  err, config_invalid, ◌==◌, if◌then◌else◌,
}

pub record Endpoint : Type 0 where
  pub host : Text
  pub port : ℕ

pub record TlsConfig : Type 0 where
  pub enabled : Bool
  pub server_name : Text
  pub insecure : Bool
  pub alpn : List Text

pub record Node : Type 0 where
  pub id : Text
  pub name : Text
  pub protocol : Text
  pub endpoint : Endpoint
  pub authentication : Json
  pub transport : Json
  pub tls : TlsConfig
  pub metadata : Json
  pub subscription_id : Text
  pub enabled : Bool
  pub created_at : ℤ

supported : List Text
supported = t "vless" ∷ t "vmess" ∷ t "trojan" ∷ t "shadowsocks" ∷ t "socks" ∷ t "wireguard" ∷ []

-- `Err` carries the text that every caller wraps in `ConfigInvalid`.
unfoldable pub validate : Node → SvcResult (Unit {0})
unfolding supported
validate n =
    if is_empty (trim n.name)
    then err (config_invalid (t "node name is empty"))
    else if not (any (text_eq n.protocol) supported)
    then err (config_invalid (t "unsupported protocol: " ++ n.protocol))
    else if is_empty (trim n.endpoint.host)
    then err (config_invalid (t "endpoint.host is empty"))
    else if n.endpoint.port == 0
    then err (config_invalid (t "endpoint.port is zero"))
    else ok tt
