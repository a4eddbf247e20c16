-- ===== src/Subscription/Counts.antt =====
-- `parse_all` of service/network-service/src/subscription/parser/mod.rs.
use network_client.Prelude.{
  ◌++◌, trim, split_once_text, to_ascii_lowercase, Bool-cases, inl, inr, ℕ, suc, ◌+◌, ◌≡◌, ap,
  arith, false, Option, none, some, List, [], ◌∷◌, length, Text, t, text_eq,
}
use network_client.Nodes.Model.{Node}
use network_client.Subscription.Crates.{Crates}
use network_client.Subscription.Ss
use network_client.Subscription.Parser.{
  parse_line, parse_trimmed, parse_scheme, is_placeholder_host, tally, parse_all,
}
use network_client.Subscription.FreshNode.{
  IsFresh, FreshOrNone, FreshOrNone-if, FreshOrNone-none, FreshOrNone-ss, FreshOrNone-vmess,
  FreshOrNone-vless, FreshOrNone-trojan, FreshOrNone-socks,
}

-- A kept node: fresh, and with a host that is no placeholder.
abbrev pub AllKept : List Node → Type 0
AllKept [] = Unit
AllKept (n ∷ ns) = (IsFresh n × (is_placeholder_host n.endpoint.host ≡ false)) × AllKept ns

FreshOrNone-parse_scheme :
    (k : Crates) (scheme line : Text) → FreshOrNone (parse_scheme k scheme line)
unfolding parse_scheme
FreshOrNone-parse_scheme k scheme line =
    search
      (
        FreshOrNone-if,
        FreshOrNone-none,
        FreshOrNone-ss k line,
        FreshOrNone-vmess k line,
        FreshOrNone-vless k line,
        FreshOrNone-trojan k line,
        FreshOrNone-socks k line,
      )
      depth 9

FreshOrNone-parse_line : (k : Crates) (line : Text) → FreshOrNone (parse_line k line)
unfolding parse_line FreshOrNone
FreshOrNone-parse_line k line = cut (split_once_text (t "://") (trim line))
  where
    cut : (o : Option (Text × Text)) → FreshOrNone (parse_trimmed k (trim line) o)
    cut none = tt
    cut (some (scheme, _)) = FreshOrNone-parse_scheme k (to_ascii_lowercase scheme) (trim line)

AllKept-tally :
    (o : Option Node) (r : List Node × ℕ) (n : ℕ)
    → FreshOrNone o
    → AllKept r.0 × (length r.0 + r.1 ≡ n)
    → AllKept (tally o r).0 × (length (tally o r).0 + (tally o r).1 ≡ suc n)
unfolding tally FreshOrNone
AllKept-tally none (nodes, skipped) n h (kept, count) = (kept, omega arith)
AllKept-tally (some node) (nodes, skipped) n h (kept, count) =
    elim (Bool-cases (is_placeholder_host node.endpoint.host)) [
      | inl hidden ↦ rw hidden (kept, omega arith)
      | inr shown ↦ rw shown (((h, shown), kept), omega arith)
    ]

-- Of the lines of a subscription each one is a node or counted as skipped. Each node is on, belongs
-- to no subscription yet and has one of the five protocols and the stable id of its protocol, host
-- and port, and no node has one of the hosts that announcements are addressed to.
pub parse_all-AllKept :
    (k : Crates) (lines : List Text)
    → AllKept (parse_all k lines).0
      × (length (parse_all k lines).0 + (parse_all k lines).1 ≡ length lines)
unfolding parse_all
parse_all-AllKept k [] = (tt, omega arith)
parse_all-AllKept k (line ∷ lines) =
    AllKept-tally (parse_line k line) (parse_all k lines) (length lines)
      (FreshOrNone-parse_line k line) (parse_all-AllKept k lines)

-- The scheme `shadowsocks` is dispatched to the parser of `ss://` links, which refuses it: a line that
-- begins with it, in lower case, never gives a node.
pub parse_line_shadowsocks :
    (k : Crates) (rest line : Text)
    → trim line ≡ t "shadowsocks://" ++ rest
    → parse_line k line ≡ none
unfolding parse_line parse_scheme Ss.parse to_ascii_lowercase split_once_text text_eq
parse_line_shadowsocks k rest line e = ap (λ x. parse_trimmed k x (split_once_text (t "://") x)) e
