-- ===== src/Subscription/Ss.antt =====
-- service/network-service/src/subscription/parser/ss.rs: Shadowsocks links, in the form of SIP002 and in
-- the older one.
use network_client.Prelude.{
  ℕ, Option, none, some, List, ◌++◌, if◌then◌else◌, Text, t, contains, strip_prefix, strip_last,
  split_once, rsplit_once, from_utf8, Json, Members,
}
use network_client.Nodes.Model.{Node}
use network_client.Subscription.Crates.{Crates}
use network_client.Subscription.Link.{
  split_hostport, decode_name, build_node, host_port, pad, or_else, no_tls, empty_object,
  one_member,
}

unfoldable pub b64_either : Crates → Text → Option (List ℕ)
unfolding pad
b64_either k input = or_else (k.url_safe_no_pad (pad input)) (k.standard (pad input))

unfoldable pub decoded_text : Crates → Text → Option Text
unfolding b64_either from_utf8
decoded_text k input = elim (b64_either k input) [ none ↦ none | some bytes ↦ from_utf8 bytes ]

unfoldable pub node_of : Crates → Option Text → Text → Text → Text × ℕ → Node
unfolding build_node decode_name
node_of k fragment method password (host, port) =
    build_node (t "shadowsocks") (decode_name k fragment (host_port host port)) host port
      (Json.object
        (one_member (t "method") method (one_member (t "password") password Members.end)))
      empty_object no_tls (method ++ t ":" ++ password)

unfoldable pub at_host : Crates → Option Text → Text → Text → Option (Text × ℕ) → Option Node
unfolding node_of
at_host k fragment method password none = none
at_host k fragment method password (some hp) = some (node_of k fragment method password hp)

-- From `method:password` and `host:port`.
unfoldable pub from_parts : Crates → Option Text → Option (Text × Text) → Text → Option Node
unfolding at_host split_hostport
from_parts k fragment none hostport = none
from_parts k fragment (some (method, password)) hostport =
    at_host k fragment method password (split_hostport hostport 8388)

unfoldable pub legacy_from : Crates → Option Text → Option (Text × Text) → Option Node
unfolding from_parts
legacy_from k fragment none = none
legacy_from k fragment (some (creds, hostport)) =
    from_parts k fragment (split_once b':' creds) hostport

unfoldable pub legacy : Crates → Option Text → Option Text → Option Node
unfolding legacy_from
legacy k fragment none = none
legacy k fragment (some decoded) =
    legacy_from k fragment (rsplit_once b'@' (strip_last b'/' decoded))

-- The part before `?`.
unfoldable pub before_query : Text → Text
before_query after = elim (split_once b'?' after) [ none ↦ after | some (hostport, _) ↦ hostport ]

unfoldable pub sip002_from : Crates → Option Text → Option Text → Text → Option Node
unfolding from_parts before_query
sip002_from k fragment none after = none
sip002_from k fragment (some creds) after =
    from_parts k fragment (split_once b':' creds) (before_query after)

unfoldable pub sip002 : Crates → Option Text → Option (Text × Text) → Option Node
unfolding sip002_from decoded_text
sip002 k fragment none = none
sip002 k fragment (some (userinfo, after)) = sip002_from k fragment (decoded_text k userinfo) after

-- `main`, and the text behind `#`
unfoldable pub parse_main : Crates → Text × Option Text → Option Node
unfolding sip002 legacy
parse_main k (main, fragment) =
    if contains (t "@") main
    then sip002 k fragment (split_once b'@' main)
    else legacy k fragment (decoded_text k main)

unfoldable pub cut_fragment : Text → Text × Option Text
cut_fragment body = elim (split_once b'#' body) [ none ↦ (body, none) | some (m, f) ↦ (m, some f) ]

unfoldable pub parse : Crates → Text → Option Node
unfolding parse_main cut_fragment
parse k line = elim (strip_prefix (t "ss://") line) [
  | none ↦ none
  | some body ↦ parse_main k (cut_fragment body)
]
