-- ===== src/Tests/Proxy.antt =====
-- The configurations of the cores at concrete nodes.
use network_client.Prelude.{
  if◌then◌else◌, ◌≡◌, refl, inl, true, none, some, List, [], ◌∷◌, Text, t, text_eq, Json, ok,
  SvcResult, as_bytes,
}
use network_client.Nodes.Model.{Node}
use network_client.Config.Schema.{DnsConfig}
use network_client.Subscription.Crates.{Crates, Url}
use network_client.Subscription.Parser.{parse_all}
use network_client.Subscription.Trojan.{query, transport_from_query}
use network_client.Proxy.Core.{for_node, xray}
use network_client.Proxy.Singbox.{build_singbox_config}
use network_client.Proxy.Singbox.Tags.{IsClosed, build_singbox_config-IsClosed}
use network_client.Proxy.Singbox.Builds.{AllBuild, build_singbox_config-parse_all}
use network_client.Proxy.Xray.Document.{build_xray_config}
use network_client.Proxy.Xray.Transports.{for_node-transport_from_query}
use network_client.Tests.Data.{tokyo}

-- A server behind the node, a kind that is left out, and a direct one.
abbrev dns : DnsConfig
dns = record {
  mode = t "smart";
  servers =
      record { kind = t "doh"; url = t "https://one/"; tag = t "proxy" }
      ∷ record { kind = t "tls"; url = t "two"; tag = t "proxy" }
      ∷ record { kind = t "udp"; url = t "9.9.9.9:53"; tag = t "direct" }
      ∷ [];
  cache = true;
  cache_size = 10;
}

abbrev show : Json → Text
show v = t "null"

abbrev made : SvcResult Json → Json
made (ok v) = v
made _ = Json.null

build_singbox_config-IsClosed_example : IsClosed (made (build_singbox_config show tokyo 2080 dns))
unfolding build_singbox_config text_eq
build_singbox_config-IsClosed_example =
    build_singbox_config-IsClosed show tokyo 2080 dns
      (made (build_singbox_config show tokyo 2080 dns)) refl

abbrev crates : Crates
crates = record {
  url_safe_no_pad = λ s. if text_eq s (t "bTpw") then some (as_bytes (t "m:p")) else none;
  standard = λ s. none;
  percent_decode = λ s. as_bytes s;
  parse_url = λ s. none;
  parse_json = λ s. none;
  show_json = show;
}

abbrev links : List Text
links = t "ss://bTpw@h.io:80#N" ∷ t "nothing" ∷ []

build_singbox_config-parse_all_example : AllBuild show 2080 dns (parse_all crates links).0
build_singbox_config-parse_all_example = build_singbox_config-parse_all show crates links 2080 dns

abbrev url : Url
url = record {
  host_str = some (t "h.io");
  port = some 443;
  username = t "u";
  password = none;
  fragment = none;
  query_pairs = (t "type", t "xhttp") ∷ (t "path", t "/p") ∷ [];
}

abbrev over_xhttp : Node
over_xhttp = record tokyo { transport = transport_from_query url (t "h.io") }

for_node-transport_from_query_example :
    (for_node (t "sing-box") over_xhttp ≡ xray)
    × (cfg : Json) × (build_xray_config show over_xhttp 2080 2081 dns ≡ ok cfg)
unfolding query text_eq
for_node-transport_from_query_example =
    for_node-transport_from_query show (t "sing-box") url (t "h.io") over_xhttp 2080 2081 dns refl
      refl (inl refl)
