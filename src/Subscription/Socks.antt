-- ===== src/Subscription/Socks.antt =====
-- service/network-service/src/subscription/parser/socks.rs.
use network_client.Prelude.{
  Option, none, some, [], if◌then◌else◌, Text, t, is_empty, from_utf8_lossy, Json, Members,
}
use network_client.Nodes.Model.{Node}
use network_client.Subscription.Crates.{Crates, Url}
use network_client.Subscription.Link.{
  decode_name, build_node, host_port, unwrap_or, no_tls, empty_object, one_member,
}
use network_client.Subscription.Trojan.{decoded_username, with_host}

decoded_password : Crates → Option Text → Text
unfolding from_utf8_lossy
decoded_password k none = []
decoded_password k (some p) = from_utf8_lossy (k.percent_decode p)

unfoldable pub parse_at : Crates → Url → Text → Option Node
unfolding decoded_username decoded_password build_node decode_name
parse_at k u host =
    let port = unwrap_or u.port 1080 in
    let user = decoded_username k u in
    let pass = decoded_password k u.password in
    let auth =
      if is_empty user
      then empty_object
      else Json.object
          (one_member (t "username") user (one_member (t "password") pass Members.end)) in
    some (
      build_node (t "socks") (decode_name k (some (unwrap_or u.fragment [])) (host_port host port))
        host port auth empty_object no_tls user)

unfoldable pub parse : Crates → Text → Option Node
unfolding parse_at with_host
parse k line = with_host (parse_at k) (k.parse_url line)
