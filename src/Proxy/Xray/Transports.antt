-- ===== src/Proxy/Xray/Transports.antt =====
-- The nodes that only Xray carries: links with `type=xhttp`.
use network_client.Prelude.{
  ℕ, ◌≡◌, refl, sym, ap, ◌∙◌, subst, Bool, true, false, some, ◌∷◌, ◌++◌, Text, t, text_eq, Json,
  json_object, get_member, ok, ◌>>=◌, if◌then◌else◌, inl, inr, ◌⊎◌, eq_ignore_ascii_case,
}
use network_client.Nodes.Model.{Node}
use network_client.Config.Schema.{DnsConfig}
use network_client.Subscription.Crates.{Url}
use network_client.Subscription.Trojan.{query, transport_from_query}
use network_client.Proxy.Core.{for_node, xray}
use network_client.Proxy.Xray.{
  text_of, pick_str, non_empty, transport_kind, network_of, security_members, network_members,
  stream_settings, protocol_settings, outbound_of, node_outbound,
}
use network_client.Proxy.Xray.Document.{with_stats, document, build_xray_config}

transport_from_query-xhttp :
    (u : Url) (host : Text)
    → query u (t "type") ≡ some (t "xhttp")
    → get_member (t "type") (transport_from_query u host) ≡ some (Json.string (t "xhttp"))
unfolding transport_from_query get_member text_eq
transport_from_query-xhttp u host e = rw (e, transport_from_query) refl

for_node-xhttp :
    (app_kind : Text) (node : Node)
    → get_member (t "type") node.transport ≡ some (Json.string (t "xhttp"))
    → for_node app_kind node ≡ xray
unfolding for_node eq_ignore_ascii_case
for_node-xhttp app_kind node e = rw (e, for_node) (both (eq_ignore_ascii_case app_kind (t "xray")))
  where
    both : (b : Bool) → (if b then xray else xray) ≡ xray
    both true = refl
    both false = refl

pick_str-string :
    (v : Json) (key s : Text) → get_member key v ≡ some (Json.string s) → pick_str v key ≡ some s
unfolding pick_str text_of
pick_str-string v key s e = ap text_of e

transport_kind-xhttp :
    (node : Node)
    → get_member (t "type") node.transport ≡ some (Json.string (t "xhttp"))
    → transport_kind node ≡ some (t "xhttp")
unfolding transport_kind non_empty
transport_kind-xhttp node e = ap non_empty (pick_str-string node.transport (t "type") (t "xhttp") e)

IsMapped : Text → Type 0
IsMapped protocol = (protocol ≡ t "vless") ⊎ (protocol ≡ t "trojan")

with_protocol : Node → Text → Node
with_protocol node protocol = record node { protocol = protocol }

HasSettings : (Json → Text) → Node → Type 0
HasSettings show_json node = (p : Text × Json) × (protocol_settings show_json node ≡ some p)

settings_of :
    (show_json : Json → Text) (node : Node) → IsMapped node.protocol → HasSettings show_json node
unfolding IsMapped HasSettings protocol_settings text_eq with_protocol
settings_of show_json node (inl vless) =
    subst (λ p. HasSettings show_json (with_protocol node p)) (sym vless) (_, refl)
settings_of show_json node (inr trojan) =
    subst (λ p. HasSettings show_json (with_protocol node p)) (sym trojan) (_, refl)

stream_settings-xhttp :
    (node : Node)
    → get_member (t "type") node.transport ≡ some (Json.string (t "xhttp"))
    → (stream : Json) × (stream_settings node ≡ ok stream)
unfolding stream_settings network_of text_eq
stream_settings-xhttp node e = (
  _,
  ap
      (λ kind. network_of kind >>= λ network. ok (
        json_object (
          (t "network", Json.string network) ∷ security_members node
          ++ network_members network node)))
      (transport_kind-xhttp node e),
)

node_outbound-xhttp :
    (show_json : Json → Text) (node : Node)
    → get_member (t "type") node.transport ≡ some (Json.string (t "xhttp"))
    → IsMapped node.protocol
    → (o : Json) × (node_outbound show_json node ≡ ok o)
unfolding node_outbound HasSettings outbound_of
node_outbound-xhttp show_json node e known =
    let (stream, made) = stream_settings-xhttp node e in
    let (p, mapped) = settings_of show_json node known in
    (
      _,
      ap (λ r. r >>= λ s. outbound_of node s (protocol_settings show_json node)) made
          ∙ ap (outbound_of node stream) mapped,
    )

-- A node whose transport the parsers of vless and trojan links make for a link with `type=xhttp` runs on
-- Xray, whichever core the configuration names, and for every port and DNS configuration the builder of
-- Xray makes its configuration, never an error.
pub for_node-transport_from_query :
    (show_json : Json → Text) (app_kind : Text) (u : Url) (host : Text) (node : Node)
    (mixed_port socks_port : ℕ) (dns : DnsConfig)
    → query u (t "type") ≡ some (t "xhttp")
    → node.transport ≡ transport_from_query u host
    → (node.protocol ≡ t "vless") ⊎ (node.protocol ≡ t "trojan")
    → (for_node app_kind node ≡ xray)
      × (cfg : Json) × (build_xray_config show_json node mixed_port socks_port dns ≡ ok cfg)
unfolding build_xray_config IsMapped
for_node-transport_from_query show_json app_kind u host node mixed_port socks_port dns asked made
      known =
    let kind = ap (get_member (t "type")) made ∙ transport_from_query-xhttp u host asked in
    let (o, built) = node_outbound-xhttp show_json node kind known in
    (
      for_node-xhttp app_kind node kind,
      _,
      ap (λ r. r >>= λ node_ob. ok (document (with_stats node_ob) mixed_port socks_port dns)) built,
    )
