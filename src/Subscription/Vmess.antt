-- ===== src/Subscription/Vmess.antt =====
-- service/network-service/src/subscription/parser/vmess.rs: a JSON object behind `vmess://`.
use network_client.Prelude.{
  ℕ, false, Option, none, some, List, [], if◌then◌else◌, ◌||◌, Text, t, text_eq, is_empty, trim,
  strip_prefix, from_utf8, trim_matches, eq_ignore_ascii_case, parse_unsigned, get_member, Json,
  Members,
}
use network_client.Nodes.Model.{Node, TlsConfig}
use network_client.Subscription.Crates.{Crates}
use network_client.Subscription.Link.{
  decode_name, build_node, pad, or_else, empty_object, one_member, u16_max,
}

unfoldable pub b64_either : Crates → Text → Option (List ℕ)
unfolding pad
b64_either k input = or_else (k.standard (pad input)) (k.url_safe_no_pad (pad input))

text_of : Crates → Json → Text
unfolding trim_matches
text_of k (Json.string s) = s
text_of k other = trim_matches b'"' (k.show_json other)

unfoldable pub get_str : Crates → Json → Text → Text
unfolding text_of get_member
get_str k v key = elim (get_member key v) [ none ↦ [] | some x ↦ text_of k x ]

abbrev pub non_empty : Text → Text → Text
non_empty s fallback = if is_empty s then fallback else s

transport_of : Text → Text → Text → Text → Json
unfolding text_eq
transport_of net path ws_host host =
    if text_eq net (t "ws")
    then Json.object (
        one_member (t "type") (t "ws") (
          one_member (t "path") (non_empty path (t "/")) (
            Members.member (t "headers")
              (Json.object (one_member (t "Host") (non_empty ws_host host) Members.end))
              Members.end)))
    else if text_eq net (t "grpc")
    then Json.object
        (one_member (t "type") (t "grpc") (one_member (t "service_name") path Members.end))
    else if text_eq net (t "h2")
    then Json.object (
        one_member (t "type") (t "http")
          (one_member (t "path") path (one_member (t "host") ws_host Members.end)))
    else empty_object

-- The node of a configuration whose port is read.
unfoldable pub node_of : Crates → Json → ℕ → Option Node
unfolding get_str transport_of build_node decode_name eq_ignore_ascii_case
node_of k v port =
    let host = get_str k v (t "add") in
    let uuid = get_str k v (t "id") in
    let ws_host = get_str k v (t "host") in
    let tls : TlsConfig = record {
      enabled = eq_ignore_ascii_case (get_str k v (t "tls")) (t "tls");
      server_name = non_empty (get_str k v (t "sni")) ws_host;
      insecure = false;
      alpn = [];
    } in
    let authentication = Json.object (
      one_member (t "uuid") uuid (
        one_member (t "alter_id") (get_str k v (t "aid")) (
          one_member (t "security") (non_empty (get_str k v (t "scy")) (t "auto")) Members.end))) in
    if is_empty host || is_empty uuid
    then none
    else some (
        build_node (t "vmess") (decode_name k none (get_str k v (t "ps"))) host port authentication
          (transport_of (get_str k v (t "net")) (get_str k v (t "path")) ws_host host) tls uuid)

unfoldable pub from_json : Crates → Option Json → Option Node
unfolding node_of get_str parse_unsigned
from_json k none = none
from_json k (some v) = elim (parse_unsigned u16_max (get_str k v (t "port"))) [
  | none ↦ none
  | some port ↦ node_of k v port
]

unfoldable pub from_text : Crates → Option Text → Option Node
unfolding from_json
from_text k none = none
from_text k (some decoded) = from_json k (k.parse_json decoded)

unfoldable pub from_bytes : Crates → Option (List ℕ) → Option Node
unfolding from_text
from_bytes k none = none
from_bytes k (some bytes) = from_text k (from_utf8 bytes)

unfoldable pub parse : Crates → Text → Option Node
unfolding from_bytes b64_either
parse k line = elim (strip_prefix (t "vmess://") line) [
  | none ↦ none
  | some body ↦ from_bytes k (b64_either k (trim body))
]
