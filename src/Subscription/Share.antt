-- ===== src/Subscription/Share.antt =====
-- The links of service/network-service/src/subscription/parser/ss.rs in the form of SIP002.
use network_client.Prelude.{
  ℕ, ◌≤◌, ◌<◌, ◌⊎◌, ◌≡◌, ◌≢◌, refl, ap, ◌∙◌, inl, inr, arith, Option, some, ◌∷◌, ◌++◌, Text, t,
  Lacks, Lacks-append, contains-append, split_once-append, split_once-Lacks, as_bytes, IsString,
  from_utf8-as_bytes, decimal, IsDigits-decimal, Json, get_member,
}
use network_client.Nodes.Model.{Node}
use network_client.Subscription.Crates.{Crates}
use network_client.Subscription.Link.{
  u16_max, host_port, pad, decode_name, split_hostport, build_node,
}
use network_client.Subscription.Ss.{
  parse, parse_main, cut_fragment, sip002, sip002_from, from_parts, at_host, before_query, node_of,
  decoded_text, b64_either,
}
use network_client.Subscription.HostPort.{IsHost, Lacks-IsDigits, split_hostport-host_port}

-- `ss://userinfo@host:port#fragment`
abbrev pub ss_link : Text → Text → ℕ → Text → Text
ss_link userinfo host port fragment =
    t "ss://" ++ (userinfo ++ b'@' ∷ host_port host port ++ b'#' ∷ fragment)

Lacks-host_port :
    (d : ℕ) (host : Text) (port : ℕ)
    → d ≢ b':'
    → d < 48 ⊎ 57 < d
    → Lacks d host
    → Lacks d (host_port host port)
Lacks-host_port d host port colon out h =
    Lacks-append d (host ++ t ":") (decimal port) (Lacks-append d host (t ":") h (ground arith, tt))
      (Lacks-IsDigits d (decimal port) out (IsDigits-decimal port))

decoded_text-as_bytes :
    (k : Crates) (userinfo creds : Text)
    → IsString creds
    → k.url_safe_no_pad (pad userinfo) ≡ some (as_bytes creds)
    → decoded_text k userinfo ≡ some creds
unfolding decoded_text b64_either
decoded_text-as_bytes k userinfo creds valid e =
    rw (e, decoded_text) (from_utf8-as_bytes creds valid)

cut_fragment-append :
    (main fragment : Text)
    → Lacks b'#' main
    → cut_fragment (main ++ b'#' ∷ fragment) ≡ (main, some fragment)
unfolding cut_fragment
cut_fragment-append main fragment h = rw (split_once-append b'#' main fragment h, cut_fragment) refl

before_query-Lacks : (s : Text) → Lacks b'?' s → before_query s ≡ s
unfolding before_query
before_query-Lacks s h = rw (split_once-Lacks b'?' s h, before_query) refl

parse_main-sip002 :
    (k : Crates) (userinfo after : Text) (fragment : Option Text)
    → Lacks b'@' userinfo
    → parse_main k (userinfo ++ b'@' ∷ after, fragment) ≡ sip002 k fragment (some (userinfo, after))
unfolding parse_main
parse_main-sip002 k userinfo after fragment h =
    ground (arith, contains-append b'@' userinfo after, split_once-append b'@' userinfo after h)

-- A link of the form `ss://userinfo@host:port#name`, whose first part the url-safe engine decodes to
-- `method:password`, is read as the Shadowsocks node with exactly these parts, named by the percent
-- decoding of the fragment or, if that is empty, by `host:port`. The method has no colon, the host begins
-- neither with white space nor with a bracket, and no part has a separator that cuts it earlier.
pub parse-ss_link :
    (k : Crates) (userinfo method password host fragment : Text) (port : ℕ)
    → IsString (method ++ b':' ∷ password)
    → k.url_safe_no_pad (pad userinfo) ≡ some (as_bytes (method ++ b':' ∷ password))
    → Lacks b':' method
    → Lacks b'@' userinfo × Lacks b'#' userinfo
    → Lacks b'#' host × Lacks b'?' host × IsHost host
    → port ≤ u16_max
    → (n : Node) × (parse k (ss_link userinfo host port fragment) ≡ some n)
      × (n.protocol ≡ t "shadowsocks")
      × (n.endpoint ≡ record { host = host; port = port })
      × (get_member (t "method") n.authentication ≡ some (Json.string method))
      × (get_member (t "password") n.authentication ≡ some (Json.string password))
      × (n.name ≡ decode_name k (some fragment) (host_port host port))
unfolding parse sip002 sip002_from from_parts at_host node_of build_node get_member
parse-ss_link k userinfo method password host fragment port valid decodes colon (no_at, no_hash)
      (host_hash, host_query, good) fits =
    let hp = host_port host port in
    let main = userinfo ++ b'@' ∷ hp in
    let creds = method ++ b':' ∷ password in
    let hash : Lacks b'#' main = Lacks-append b'#' userinfo (b'@' ∷ hp) no_hash (
      ground arith,
      Lacks-host_port b'#' host port (λ e. ground arith) (inl (omega arith)) host_hash,
    ) in
    let query = Lacks-host_port b'?' host port (λ e. ground arith) (inr (omega arith)) host_query in
    (
      node_of k (some fragment) method password (host, port),
      ap (parse_main k) (cut_fragment-append main fragment hash)
          ∙ parse_main-sip002 k userinfo hp (some fragment) no_at
          ∙ ap (λ c. sip002_from k (some fragment) c hp)
              (decoded_text-as_bytes k userinfo creds valid decodes)
          ∙ ap (λ p. from_parts k (some fragment) p (before_query hp))
              (split_once-append b':' method password colon)
          ∙ ap (λ x. at_host k (some fragment) method password (split_hostport x 8388))
              (before_query-Lacks hp query)
          ∙ ap (at_host k (some fragment) method password)
              (split_hostport-host_port host port 8388 good fits),
      refl,
      refl,
      refl,
      refl,
      refl,
    )
