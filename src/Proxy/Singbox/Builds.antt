-- ===== src/Proxy/Singbox/Builds.antt =====
-- Which nodes have a builder in proxy/config_builder.rs, and that every node of a subscription is one.
use network_client.Prelude.{
  ℕ, ◌≡◌, refl, ap, arith, Bool, true, false, Option, some, List, [], ◌∷◌, Text, t, text_eq, Json,
  json_object, ok, ◌>>=◌, if◌then◌else◌,
}
use network_client.Nodes.Model.{Node}
use network_client.Config.Schema.{DnsConfig}
use network_client.Subscription.Crates.{Crates}
use network_client.Subscription.Parser.{parse_all}
use network_client.Subscription.FreshNode.{IsLinked}
use network_client.Subscription.Counts.{AllKept, parse_all-AllKept}
use network_client.Proxy.SingboxDns.{str}
use network_client.Proxy.Singbox.{protocol_members, node_outbound, document, build_singbox_config}

IsSome : {A : Type 0} → Option A → Type 0
IsSome {A} o = (a : A) × (o ≡ some a)

some_if :
    {A : Type 0} (b : Bool) (x : A) (r : Option A)
    → (b ≡ false → IsSome r)
    → IsSome (if b then some x else r)
unfolding IsSome
some_if true x r h = (x, refl)
some_if false x r h = h refl

unlinked :
    (p : Text)
    → text_eq p (t "shadowsocks") ≡ false
    → text_eq p (t "vmess") ≡ false
    → text_eq p (t "vless") ≡ false
    → text_eq p (t "trojan") ≡ false
    → text_eq p (t "socks") ≡ false
    → IsLinked p
    → ⊥
unfolding IsLinked
unlinked p a b c d e known = ground (arith, a, b, c, d, e)

IsSome-protocol_members :
    (show_json : Json → Text) (node : Node)
    → IsLinked node.protocol
    → IsSome (protocol_members show_json node)
unfolding protocol_members IsLinked
IsSome-protocol_members show_json node known =
    let p = node.protocol in
    some_if (text_eq p (t "shadowsocks")) _ _ (λ a. some_if (text_eq p (t "vmess")) _ _ (λ b.
      some_if (text_eq p (t "vless")) _ _ (λ c.
        some_if (text_eq p (t "trojan")) _ _
          (λ d. some_if (text_eq p (t "socks")) _ _ (λ e. absurd (unlinked p a b c d e known))))))

node_outbound-some :
    (show_json : Json → Text) (node : Node) (ms : List (Text × Json))
    → protocol_members show_json node ≡ some ms
    → node_outbound show_json node
      ≡ ok (
          json_object (
            (t "tag", str (t "node"))
            ∷ (t "server", str node.endpoint.host)
            ∷ (t "server_port", Json.number node.endpoint.port)
            ∷ ms))
unfolding node_outbound
node_outbound-some show_json node ms e = rw (e, node_outbound) refl

-- Every node has a configuration.
abbrev pub AllBuild : (Json → Text) → ℕ → DnsConfig → List Node → Type 0
AllBuild show_json port dns [] = Unit
AllBuild show_json port dns (n ∷ ns) =
    ((cfg : Json) × (build_singbox_config show_json n port dns ≡ ok cfg))
    × AllBuild show_json port dns ns

AllBuild-AllKept :
    (show_json : Json → Text) (port : ℕ) (dns : DnsConfig) (ns : List Node)
    → AllKept ns
    → AllBuild show_json port dns ns
unfolding build_singbox_config IsSome
AllBuild-AllKept show_json port dns [] kept = tt
AllBuild-AllKept show_json port dns (n ∷ ns) ((fresh, _), kept) =
    let (ms, e) = IsSome-protocol_members show_json n fresh.known in
    (
      (
        _,
        ap (λ r. r >>= λ outbound. ok (document outbound port dns))
            (node_outbound-some show_json n ms e),
      ),
      AllBuild-AllKept show_json port dns ns kept,
    )

-- Every node that the parsers make of the lines of a subscription has a builder: for it, any port and any
-- DNS configuration the configuration of sing-box is made, never an error.
pub build_singbox_config-parse_all :
    (show_json : Json → Text) (k : Crates) (lines : List Text) (port : ℕ) (dns : DnsConfig)
    → AllBuild show_json port dns (parse_all k lines).0
build_singbox_config-parse_all show_json k lines port dns =
    AllBuild-AllKept show_json port dns (parse_all k lines).0 (parse_all-AllKept k lines).0
