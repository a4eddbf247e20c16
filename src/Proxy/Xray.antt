-- ===== src/Proxy/Xray.antt =====
-- service/network-service/src/proxy/xray_builder.rs: the configuration of Xray for a node.
pub mod Document
pub mod Transports
use network_client.Prelude.{
  ℕ, Bool, true, false, Option, none, some, List, [], ◌∷◌, ◌++◌, map, if◌then◌else◌, Text, t,
  text_eq, is_empty, trim_matches, trim_end_matches, Json, Members, get_member, json_index,
  json_object, json_array, as_text, SvcResult, ok, err, config_invalid, ◌>>=◌,
}
use network_client.Nodes.Model.{Node}
use network_client.Config.Schema.{DnsConfig, DnsServer}

shown : (Json → Text) → Json → Text
unfolding trim_matches
shown show_json (Json.string s) = s
shown show_json other = trim_matches b'"' (show_json other)

unfoldable pub auth_str : (Json → Text) → Node → Text → Text
unfolding shown get_member
auth_str show_json node key = elim (get_member key node.authentication) [
  | none ↦ []
  | some v ↦ shown show_json v
]

abbrev str : Text → Json
str s = Json.string s

unfoldable pub text_of : Option Json → Option Text
text_of none = none
text_of (some v) = as_text v

unfoldable pub pick_str : Json → Text → Option Text
unfolding get_member text_of
pick_str v key = text_of (get_member key v)

unfoldable pub non_empty : Option Text → Option Text
non_empty none = none
non_empty (some s) = if is_empty s then none else some s

unfoldable pub transport_kind : Node → Option Text
unfolding pick_str non_empty
transport_kind node = non_empty (pick_str node.transport (t "type"))

-- The network of a transport, which is `tcp` where there is none.
unfoldable pub network_of : Option Text → SvcResult Text
unfolding text_eq
network_of none = ok (t "tcp")
network_of (some kind) =
    if text_eq kind (t "tcp")
    then ok (t "tcp")
    else if text_eq kind (t "ws")
    then ok (t "ws")
    else if text_eq kind (t "grpc")
    then ok (t "grpc")
    else if text_eq kind (t "xhttp")
    then ok (t "xhttp")
    else err (config_invalid (t "xray builder: unsupported transport " ++ kind))

abbrev unwrap_or : Option Text → Text → Text
unwrap_or none d = d
unwrap_or (some s) d = s

sni : Node → Text
sni node = if is_empty node.tls.server_name then node.endpoint.host else node.tls.server_name

reality_settings : Node → Json → Json
unfolding sni pick_str
reality_settings node r = json_object (
    (t "serverName", str (sni node))
    ∷ (t "fingerprint", str (unwrap_or (pick_str r (t "fingerprint")) (t "chrome")))
    ∷ (t "publicKey", str (unwrap_or (pick_str r (t "public_key")) []))
    ∷ (t "shortId", str (unwrap_or (pick_str r (t "short_id")) []))
    ∷ (t "spiderX", str [])
    ∷ [])

alpn_member : List Text → List (Text × Json)
alpn_member [] = []
alpn_member (a ∷ more) = (t "alpn", json_array (map str (a ∷ more))) ∷ []

tls_settings : Node → Json
unfolding sni alpn_member
tls_settings node = json_object (
    (t "serverName", str (sni node))
    ∷ (t "allowInsecure", Json.boolean node.tls.insecure)
    ∷ (t "fingerprint", str (t "chrome"))
    ∷ alpn_member node.tls.alpn)

-- Reality goes before TLS.
unfoldable pub security_members : Node → List (Text × Json)
unfolding reality_settings tls_settings get_member
security_members node = elim (get_member (t "reality") node.authentication) [
  | some r ↦ (t "security", str (t "reality")) ∷ (t "realitySettings", reality_settings node r) ∷ []
  | none ↦
      if node.tls.enabled
      then (t "security", str (t "tls")) ∷ (t "tlsSettings", tls_settings node) ∷ []
      else (t "security", str (t "none")) ∷ []
]

text_or : Text → Json → Text
text_or d v = unwrap_or (as_text v) d

given : Text → Option Text → List (Text × Json)
given key none = []
given key (some v) = if is_empty v then [] else (key, str v) ∷ []

unfoldable pub network_members : Text → Node → List (Text × Json)
unfolding text_or given pick_str json_index text_eq
network_members network node =
    let host = text_or [] (json_index (t "Host") (json_index (t "headers") node.transport)) in
    if text_eq network (t "ws")
    then (
      t "wsSettings",
      json_object (
          (t "path", str (text_or (t "/") (json_index (t "path") node.transport)))
          ∷ (t "headers", json_object (if is_empty host then [] else (t "Host", str host) ∷ []))
          ∷ []),
    )
      ∷ []
    else if text_eq network (t "grpc")
    then (
      t "grpcSettings",
      json_object (
          (t "serviceName", str (text_or [] (json_index (t "service_name") node.transport)))
          ∷ (t "multiMode", Json.boolean false)
          ∷ []),
    )
      ∷ []
    else if text_eq network (t "xhttp")
    then (
      t "xhttpSettings",
      json_object (
          given (t "path") (pick_str node.transport (t "path"))
          ++ given (t "host") (pick_str node.transport (t "host"))
          ++ given (t "mode") (pick_str node.transport (t "mode"))),
    )
      ∷ []
    else []

unfoldable pub stream_settings : Node → SvcResult Json
unfolding transport_kind network_of security_members network_members
stream_settings node = network_of (transport_kind node) >>= λ network. ok (
    json_object
      ((t "network", str network) ∷ security_members node ++ network_members network node))

server_entry : Node → List (Text × Json) → Json
server_entry node ms = json_object (
    (
      t "servers",
      json_array (
          json_object (
            (t "address", str node.endpoint.host) ∷ (t "port", Json.number node.endpoint.port) ∷ ms)
          ∷ []),
    )
    ∷ [])

-- The protocol and its settings, or none where there is no mapping.
unfoldable pub protocol_settings : (Json → Text) → Node → Option (Text × Json)
unfolding auth_str server_entry text_eq
protocol_settings show_json node =
    let auth : Text → Text = auth_str show_json node in
    let flow = auth (t "flow") in
    if text_eq node.protocol (t "vless")
    then some (
      t "vless",
      json_object (
          (
            t "vnext",
            json_array (
                json_object (
                  (t "address", str node.endpoint.host)
                  ∷ (t "port", Json.number node.endpoint.port)
                  ∷ (
                    t "users",
                    json_array (
                        json_object (
                          (t "id", str (auth (t "uuid")))
                          ∷ (t "encryption", str (t "none"))
                          ∷ (if is_empty flow then [] else (t "flow", str flow) ∷ []))
                        ∷ []),
                  )
                  ∷ [])
                ∷ []),
          )
          ∷ []),
    )
    else if text_eq node.protocol (t "trojan")
    then some (t "trojan", server_entry node ((t "password", str (auth (t "password"))) ∷ []))
    else if text_eq node.protocol (t "shadowsocks")
    then some (
      t "shadowsocks",
      server_entry node
          ((t "method", str (auth (t "method"))) ∷ (t "password", str (auth (t "password"))) ∷ []),
    )
    else none

outbound_of : Node → Json → Option (Text × Json) → SvcResult Json
outbound_of node stream none =
    err (config_invalid (t "xray builder: no mapping for protocol " ++ node.protocol))
outbound_of node stream (some (protocol, settings)) = ok (
    json_object (
      (t "tag", str (t "node"))
      ∷ (t "protocol", str protocol)
      ∷ (t "settings", settings)
      ∷ (t "streamSettings", stream)
      ∷ []))

unfoldable pub node_outbound : (Json → Text) → Node → SvcResult Json
unfolding stream_settings protocol_settings outbound_of
node_outbound show_json node =
    stream_settings node >>= λ stream. outbound_of node stream (protocol_settings show_json node)

dns_servers : List DnsServer → List Json
unfolding text_eq trim_end_matches
dns_servers [] = []
dns_servers (s ∷ ss) =
    let rest = dns_servers ss in
    if text_eq s.kind (t "udp")
    then json_object ((t "address", str (trim_end_matches (t ":53") s.url)) ∷ []) ∷ rest
    else if text_eq s.kind (t "doh")
    then json_object ((t "address", str s.url) ∷ []) ∷ rest
    else rest

or_default_server : List Json → List Json
or_default_server [] = json_object ((t "address", str (t "223.5.5.5")) ∷ []) ∷ []
or_default_server (s ∷ ss) = s ∷ ss

unfoldable pub dns_block : DnsConfig → Json
unfolding dns_servers or_default_server
dns_block dns = json_object (
    (t "servers", json_array (or_default_server (dns_servers dns.servers)))
    ∷ (t "queryStrategy", str (t "UseIPv4"))
    ∷ [])
