-- ===== src/Proxy/Singbox.antt =====
-- service/network-service/src/proxy/config_builder.rs: the configuration of sing-box for a node. A value
-- that is no text is shown by the parameter `show_json`, as `to_string` of a JSON value does.
pub mod Tags
pub mod Builds
use network_client.Prelude.{
  ℕ, zero, suc, ◌+◌, ◌-◌, ◌^◌, ◌==◌, Bool, true, false, not, Option, none, some, List, [], ◌∷◌,
  ◌++◌, map, find, if◌then◌else◌, Text, t, text_eq, is_empty, starts_with, trim_matches,
  trim_end_matches, decimal, parse_unsigned, Json, Members, get_member, json_object, json_array,
  as_text, SvcResult, ok, err, config_invalid, ◌>>=◌,
}
use network_client.Nodes.Model.{Node}
use network_client.Proxy.SingboxDns.{str, dns_block}
use network_client.Config.Schema.{DnsConfig}

shown : (Json → Text) → Json → Text
unfolding trim_matches
shown show_json (Json.string s) = s
shown show_json other = trim_matches b'"' (show_json other)

unfoldable pub auth_str : (Json → Text) → Node → Text → Text
unfolding shown get_member
auth_str show_json node key = elim (get_member key node.authentication) [
  | none ↦ []
  | some v ↦ shown show_json v
]

-- The configured server name, or the host.
abbrev pub sni : Node → Text
sni node = if is_empty node.tls.server_name then node.endpoint.host else node.tls.server_name

alpn_member : List Text → List (Text × Json)
alpn_member [] = []
alpn_member (a ∷ more) = (t "alpn", json_array (map str (a ∷ more))) ∷ []

unfoldable pub tls_block : Node → Json
unfolding alpn_member
tls_block node =
    if not node.tls.enabled
    then json_object ((t "enabled", Json.boolean false) ∷ [])
    else json_object (
        (t "enabled", Json.boolean true)
        ∷ (t "server_name", str (sni node))
        ∷ (t "insecure", Json.boolean node.tls.insecure)
        ∷ alpn_member node.tls.alpn)

-- The transport, if it is an object that is not empty.
block_of : Json → Option Json
block_of (Json.object (Members.member k v ms)) = some (Json.object (Members.member k v ms))
block_of _ = none

unfoldable pub transport_member : Node → List (Text × Json)
unfolding block_of
transport_member node = elim (block_of node.transport) [
  | none ↦ []
  | some tr ↦ (t "transport", tr) ∷ []
]

with_tls : Node → List (Text × Json) → List (Text × Json)
unfolding tls_block
with_tls node [] = []
with_tls node (m ∷ ms) = (m ∷ ms) ++ (t "tls", tls_block node) ∷ []

given : Text → Text → List (Text × Json)
given key value = if is_empty value then [] else (key, str value) ∷ []

negated : ℕ → Json
negated zero = Json.number 0
negated (suc n) = Json.negative n

signed : Option ℕ → (ℕ → Json) → Json
signed none f = Json.number 0
signed (some n) f = f n

-- `parse::<i64>().unwrap_or(0)`
alter_id : Text → Json
unfolding signed negated parse_unsigned
alter_id [] = Json.number 0
alter_id (c ∷ s) =
    if c == b'-'
    then (if starts_with (t "+") s
        then Json.number 0
        else signed (parse_unsigned (2 ^ 63) s) negated)
    else signed (parse_unsigned (2 ^ 63 - 1) (c ∷ s)) Json.number

-- The members that depend on the protocol, or none where there is no builder.
unfoldable pub protocol_members : (Json → Text) → Node → Option (List (Text × Json))
unfolding auth_str transport_member with_tls tls_block given alter_id text_eq
protocol_members show_json node =
    let auth : Text → Text = auth_str show_json node in
    let tls : List (Text × Json) = (t "tls", tls_block node) ∷ [] in
    if text_eq node.protocol (t "shadowsocks")
    then some (
        (t "type", str (t "shadowsocks"))
        ∷ (t "method", str (auth (t "method")))
        ∷ (t "password", str (auth (t "password")))
        ∷ with_tls node (transport_member node))
    else if text_eq node.protocol (t "vmess")
    then some (
        (t "type", str (t "vmess"))
          ∷ (t "uuid", str (auth (t "uuid")))
          ∷ (
            t "security",
            str (if is_empty (auth (t "security")) then t "auto" else auth (t "security")),
          )
          ∷ (t "alter_id", alter_id (auth (t "alter_id")))
          ∷ transport_member node
        ++ tls)
    else if text_eq node.protocol (t "vless")
    then some (
        (t "type", str (t "vless"))
          ∷ (t "uuid", str (auth (t "uuid")))
          ∷ given (t "flow") (auth (t "flow"))
        ++ transport_member node
        ++ tls)
    else if text_eq node.protocol (t "trojan")
    then some (
        (t "type", str (t "trojan"))
          ∷ (t "password", str (auth (t "password")))
          ∷ transport_member node
        ++ tls)
    else if text_eq node.protocol (t "socks")
    then some (
        (t "type", str (t "socks"))
          ∷ (t "version", str (t "5"))
          ∷ (if is_empty (auth (t "username"))
              then []
              else (t "username", str (auth (t "username")))
                ∷ (t "password", str (auth (t "password")))
                ∷ [])
        ++ tls)
    else none

unfoldable pub node_outbound : (Json → Text) → Node → SvcResult Json
unfolding protocol_members
node_outbound show_json node = elim (protocol_members show_json node) [
  | none ↦ err (config_invalid (t "no core builder for protocol " ++ node.protocol))
  | some ms ↦ ok (
      json_object (
        (t "tag", str (t "node"))
        ∷ (t "server", str node.endpoint.host)
        ∷ (t "server_port", Json.number node.endpoint.port)
        ∷ ms))
]

-- The document around an outbound.
unfoldable pub document : Json → ℕ → DnsConfig → Json
unfolding dns_block
document outbound mixed_port dns =
    let yes_value = Json.boolean true in
    json_object (
      (t "log", json_object ((t "level", str (t "warn")) ∷ (t "timestamp", yes_value) ∷ []))
      ∷ (t "dns", dns_block dns)
      ∷ (
        t "inbounds",
        json_array (
            json_object (
              (t "type", str (t "mixed"))
              ∷ (t "tag", str (t "mixed-in"))
              ∷ (t "listen", str (t "127.0.0.1"))
              ∷ (t "listen_port", Json.number mixed_port)
              ∷ (t "sniff", yes_value)
              ∷ (t "sniff_override_destination", yes_value)
              ∷ [])
            ∷ []),
      )
      ∷ (
        t "outbounds",
        json_array (
            outbound
            ∷ json_object ((t "type", str (t "direct")) ∷ (t "tag", str (t "direct")) ∷ [])
            ∷ json_object ((t "type", str (t "block")) ∷ (t "tag", str (t "block")) ∷ [])
            ∷ []),
      )
      ∷ (
        t "route",
        json_object (
            (
              t "rules",
              json_array (
                  json_object
                    ((t "ip_is_private", yes_value) ∷ (t "outbound", str (t "direct")) ∷ [])
                  ∷ []),
            )
            ∷ (t "final", str (t "node"))
            ∷ (t "auto_detect_interface", yes_value)
            ∷ []),
      )
      ∷ [])

unfoldable pub build_singbox_config : (Json → Text) → Node → ℕ → DnsConfig → SvcResult Json
unfolding node_outbound document
build_singbox_config show_json node mixed_port dns =
    node_outbound show_json node >>= λ outbound. ok (document outbound mixed_port dns)
