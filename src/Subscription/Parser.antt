-- ===== src/Subscription/Parser.antt =====
-- `parse_line` and `parse_all` of service/network-service/src/subscription/parser/mod.rs.
use network_client.Prelude.{
  ℕ, suc, ◌||◌, Bool, Option, none, some, List, [], ◌∷◌, if◌then◌else◌, Text, t, text_eq, trim,
  split_once_text, to_ascii_lowercase,
}
use network_client.Nodes.Model.{Node}
use network_client.Subscription.Crates.{Crates}
use network_client.Subscription.Ss
use network_client.Subscription.Vmess
use network_client.Subscription.Vless
use network_client.Subscription.Trojan
use network_client.Subscription.Socks

-- The dispatch on the lower-case scheme of a line.
unfoldable pub parse_scheme : Crates → Text → Text → Option Node
unfolding text_eq Ss.parse Vmess.parse Vless.parse Trojan.parse Socks.parse
parse_scheme k scheme line =
    if text_eq scheme (t "ss") || text_eq scheme (t "shadowsocks")
    then Ss.parse k line
    else if text_eq scheme (t "vmess")
    then Vmess.parse k line
    else if text_eq scheme (t "vless")
    then Vless.parse k line
    else if text_eq scheme (t "trojan")
    then Trojan.parse k line
    else if text_eq scheme (t "socks") || text_eq scheme (t "socks5")
    then Socks.parse k line
    else none

unfoldable pub parse_trimmed : Crates → Text → Option (Text × Text) → Option Node
unfolding parse_scheme
parse_trimmed k line none = none
parse_trimmed k line (some (scheme, _)) = parse_scheme k (to_ascii_lowercase scheme) line

unfoldable pub parse_line : Crates → Text → Option Node
unfolding parse_trimmed
parse_line k line = parse_trimmed k (trim line) (split_once_text (t "://") (trim line))

unfoldable pub is_placeholder_host : Text → Bool
unfolding text_eq
is_placeholder_host host =
    text_eq host (t "0.0.0.0") || text_eq host (t "::") || text_eq host (t "[::]")

-- A node is kept unless its host is a placeholder; what is not kept is counted.
unfoldable pub tally : Option Node → List Node × ℕ → List Node × ℕ
unfolding is_placeholder_host
tally none (nodes, skipped) = (nodes, suc skipped)
tally (some n) (nodes, skipped) =
    if is_placeholder_host n.endpoint.host then (nodes, suc skipped) else (n ∷ nodes, skipped)

unfoldable pub parse_all : Crates → List Text → List Node × ℕ
unfolding tally parse_line
parse_all k [] = ([], 0)
parse_all k (line ∷ lines) = tally (parse_line k line) (parse_all k lines)
