-- ===== src/Proxy/Xray/Document.antt =====
-- The document of proxy/xray_builder.rs around the outbound of the node.
use network_client.Prelude.{
  ℕ, true, List, [], ◌∷◌, map, Text, t, Json, Members, json_object, json_array, SvcResult, ok,
  ◌>>=◌,
}
use network_client.Nodes.Model.{Node}
use network_client.Config.Schema.{DnsConfig}
use network_client.Proxy.Xray.{str, node_outbound, dns_block}

abbrev pub stats_port : ℕ
stats_port = 15_490

texts : List Text → Json
texts ss = json_array (map str ss)

on_value : Json
on_value = Json.boolean true

inbound : Text → ℕ → Text → Json → List (Text × Json) → Json
inbound tag port protocol settings more = json_object (
    (t "tag", str tag)
    ∷ (t "listen", str (t "127.0.0.1"))
    ∷ (t "port", Json.number port)
    ∷ (t "protocol", str protocol)
    ∷ (t "settings", settings)
    ∷ more)

sniffing : List (Text × Json)
unfolding texts on_value
sniffing =
    (
      t "sniffing",
      json_object (
          (t "enabled", on_value)
          ∷ (t "destOverride", texts (t "http" ∷ t "tls" ∷ t "quic" ∷ []))
          ∷ []),
    )
    ∷ []

inbounds : ℕ → ℕ → List Json
unfolding inbound sniffing
inbounds mixed_port socks_port =
    inbound (t "http-in") mixed_port (t "http") (json_object []) sniffing
    ∷ inbound (t "socks-in") socks_port (t "socks")
        (json_object ((t "udp", on_value) ∷ (t "auth", str (t "noauth")) ∷ [])) sniffing
    ∷ inbound (t "api-in") stats_port (t "dokodemo-door")
        (json_object ((t "address", str (t "127.0.0.1")) ∷ [])) []
    ∷ []

policy : Json
unfolding on_value
policy = json_object (
    (
      t "levels",
      json_object (
          (
            t "0",
            json_object (
                (t "statsInboundUplink", on_value)
                ∷ (t "statsInboundDownlink", on_value)
                ∷ (t "statsOutboundUplink", on_value)
                ∷ (t "statsOutboundDownlink", on_value)
                ∷ []),
          )
          ∷ []),
    )
    ∷ [])

routing : Json
unfolding texts
routing = json_object (
    (t "domainStrategy", str (t "AsIs"))
    ∷ (
      t "rules",
      json_array (
          json_object (
            (t "type", str (t "field"))
            ∷ (t "inboundTag", texts (t "api-in" ∷ []))
            ∷ (t "outboundTag", str (t "api"))
            ∷ [])
          ∷ json_object (
              (t "type", str (t "field"))
              ∷ (
                t "ip",
                texts (
                    t "10.0.0.0/8"
                    ∷ t "172.16.0.0/12"
                    ∷ t "192.168.0.0/16"
                    ∷ t "127.0.0.0/8"
                    ∷ t "169.254.0.0/16"
                    ∷ t "fc00::/7"
                    ∷ t "fe80::/10"
                    ∷ []),
              )
              ∷ (t "outboundTag", str (t "direct"))
              ∷ [])
          ∷ []),
    )
    ∷ [])

unfoldable pub document : Json → ℕ → ℕ → DnsConfig → Json
unfolding inbounds policy routing texts dns_block
document node_ob mixed_port socks_port dns = json_object (
    (t "log", json_object ((t "loglevel", str (t "warning")) ∷ []))
    ∷ (t "stats", json_object [])
    ∷ (
      t "api",
      json_object ((t "tag", str (t "api")) ∷ (t "services", texts (t "StatsService" ∷ [])) ∷ []),
    )
    ∷ (t "policy", policy)
    ∷ (t "dns", dns_block dns)
    ∷ (t "inbounds", json_array (inbounds mixed_port socks_port))
    ∷ (
      t "outbounds",
      json_array (
          node_ob
          ∷ json_object ((t "protocol", str (t "freedom")) ∷ (t "tag", str (t "direct")) ∷ [])
          ∷ json_object ((t "protocol", str (t "blackhole")) ∷ (t "tag", str (t "block")) ∷ [])
          ∷ []),
    )
    ∷ (t "routing", routing)
    ∷ [])

append_member : Text → Json → Members → Members
append_member key v Members.end = Members.member key v Members.end
append_member key v (Members.member k w ms) = Members.member k w (append_member key v ms)

-- The outbound with its own counters; `node_outbound` sets no member `stats`.
unfoldable pub with_stats : Json → Json
unfolding append_member on_value
with_stats (Json.object ms) =
    Json.object (append_member (t "stats") (json_object ((t "enabled", on_value) ∷ [])) ms)
with_stats other = other

unfoldable pub build_xray_config : (Json → Text) → Node → ℕ → ℕ → DnsConfig → SvcResult Json
unfolding node_outbound document with_stats
build_xray_config show_json node mixed_port socks_port dns =
    node_outbound show_json node >>= λ node_ob.
    ok (document (with_stats node_ob) mixed_port socks_port dns)
