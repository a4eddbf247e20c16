-- ===== src/Subscription/Vless.antt =====
-- service/network-service/src/subscription/parser/vless.rs.
use network_client.Prelude.{
  ◌||◌, Option, none, some, List, [], if◌then◌else◌, Text, t, text_eq, is_empty, split, Json,
  Members,
}
use network_client.Nodes.Model.{Node, TlsConfig}
use network_client.Subscription.Crates.{Crates, Url}
use network_client.Subscription.Link.{decode_name, build_node, host_port, unwrap_or, one_member}
use network_client.Subscription.Trojan.{
  query, query_is, transport_from_query, decoded_username, with_host,
}

alpn_of : Option Text → List Text
alpn_of none = []
alpn_of (some alpn) = split b',' alpn

-- The parameters of reality, which come last.
reality_of : Url → Text → Members
unfolding query text_eq
reality_of u security =
    let value : Text → Text = λ key. unwrap_or (query u key) [] in
    if text_eq security (t "reality")
    then Members.member (t "reality")
        (Json.object (
          one_member (t "public_key") (value (t "pbk")) (
            one_member (t "short_id") (value (t "sid"))
              (one_member (t "fingerprint") (value (t "fp")) Members.end))))
        Members.end
    else Members.end

unfoldable pub parse_at : Crates → Url → Text → Option Node
unfolding decoded_username transport_from_query build_node decode_name alpn_of reality_of
parse_at k u host =
    let port = unwrap_or u.port 443 in
    let uuid = decoded_username k u in
    let security = unwrap_or (query u (t "security")) (t "none") in
    let tls : TlsConfig = record {
      enabled = text_eq security (t "tls") || text_eq security (t "reality");
      server_name = unwrap_or (query u (t "sni")) host;
      insecure = query_is (query u (t "allowInsecure")) (t "1");
      alpn = alpn_of (query u (t "alpn"));
    } in
    let authentication = Json.object (
      one_member (t "uuid") uuid
        (one_member (t "flow") (unwrap_or (query u (t "flow")) []) (reality_of u security))) in
    if is_empty uuid
    then none
    else some (
        build_node (t "vless")
          (decode_name k (some (unwrap_or u.fragment [])) (host_port host port)) host port
          authentication (transport_from_query u host) tls uuid)

unfoldable pub parse : Crates → Text → Option Node
unfolding parse_at with_host
parse k line = with_host (parse_at k) (k.parse_url line)
