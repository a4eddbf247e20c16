-- ===== src/Subscription/Trojan.antt =====
-- service/network-service/src/subscription/parser/trojan.rs, with the transport of a query that vless.rs
-- uses as well.
use network_client.Prelude.{
  Bool, false, Option, none, some, [], if◌then◌else◌, Text, t, text_eq, is_empty, lookup,
  from_utf8_lossy, Json, Members,
}
use network_client.Nodes.Model.{Node, TlsConfig}
use network_client.Subscription.Crates.{Crates, Url}
use network_client.Subscription.Link.{
  decode_name, build_node, host_port, unwrap_or, empty_object, one_member,
}

-- The first value of a key.
unfoldable pub query : Url → Text → Option Text
unfolding lookup
query u key = lookup key u.query_pairs

-- A member of the XHTTP object, where the query has a value that is not empty.
given : Text → Option Text → Members → Members
given key none ms = ms
given key (some v) ms = if is_empty v then ms else one_member key v ms

unfoldable pub transport_from_query : Url → Text → Json
unfolding query given text_eq
transport_from_query u host =
    let kind = unwrap_or (query u (t "type")) (t "tcp") in
    let host_or = unwrap_or (query u (t "host")) host in
    let path_or = unwrap_or (query u (t "path")) (t "/") in
    if text_eq kind (t "ws")
    then Json.object (
        one_member (t "type") (t "ws") (
          one_member (t "path") path_or (
            Members.member (t "headers") (Json.object (one_member (t "Host") host_or Members.end))
              Members.end)))
    else if text_eq kind (t "grpc")
    then Json.object (
        one_member (t "type") (t "grpc")
          (one_member (t "service_name") (unwrap_or (query u (t "serviceName")) []) Members.end))
    else if text_eq kind (t "xhttp")
    then Json.object (
        one_member (t "type") (t "xhttp") (
          given (t "mode") (query u (t "mode")) (
            given (t "path") (query u (t "path"))
              (given (t "host") (query u (t "host")) Members.end))))
    else if text_eq kind (t "httpupgrade")
    then Json.object (
        one_member (t "type") (t "httpupgrade")
          (one_member (t "host") host_or (one_member (t "path") path_or Members.end)))
    else empty_object

-- `query(..).as_deref() == Some(value)`
abbrev pub query_is : Option Text → Text → Bool
query_is none value = false
query_is (some v) value = text_eq v value

unfoldable pub decoded_username : Crates → Url → Text
unfolding from_utf8_lossy
decoded_username k u = from_utf8_lossy (k.percent_decode u.username)

unfoldable pub parse_at : Crates → Url → Text → Option Node
unfolding decoded_username transport_from_query build_node decode_name
parse_at k u host =
    let port = unwrap_or u.port 443 in
    let password = decoded_username k u in
    let tls : TlsConfig = record {
      enabled = text_eq (unwrap_or (query u (t "security")) (t "tls")) (t "tls");
      server_name = unwrap_or (query u (t "sni")) host;
      insecure = query_is (query u (t "allowInsecure")) (t "1");
      alpn = [];
    } in
    if is_empty password
    then none
    else some (
        build_node (t "trojan")
          (decode_name k (some (unwrap_or u.fragment [])) (host_port host port)) host port
          (Json.object (one_member (t "password") password Members.end))
          (transport_from_query u host) tls password)

-- A URL with a host.
unfoldable pub with_host : (Url → Text → Option Node) → Option Url → Option Node
with_host f none = none
with_host f (some u) = elim (u.host_str) [ none ↦ none | some host ↦ f u host ]

unfoldable pub parse : Crates → Text → Option Node
unfolding parse_at with_host
parse k line = with_host (parse_at k) (k.parse_url line)
