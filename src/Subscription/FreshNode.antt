-- ===== src/Subscription/FreshNode.antt =====
-- What the five parsers of service/network-service/src/subscription/parser make of a link.
use network_client.Prelude.{
  any, trim, ℕ, ◌≡◌, refl, Bool, true, false, Option, none, some, List, [], ◌∷◌, Text, t, text_eq,
  pos, Json, if◌then◌else◌, strip_prefix, strip_last, split_once, rsplit_once, contains, from_utf8,
  parse_unsigned,
}
use network_client.Nodes.Model.{Node, TlsConfig}
use network_client.Subscription.Crates.{Crates, Url}
use network_client.Subscription.Link.{stable_id, build_node, split_hostport, u16_max}
use network_client.Subscription.Ss
use network_client.Subscription.Vmess
use network_client.Subscription.Vless
use network_client.Subscription.Trojan
use network_client.Subscription.Socks

-- The protocols of the links.
abbrev pub link_protocols : List Text
link_protocols = t "shadowsocks" ∷ t "vmess" ∷ t "vless" ∷ t "trojan" ∷ t "socks" ∷ []

unfoldable pub IsLinked : Text → Type 0
unfolding text_eq
IsLinked protocol = any (text_eq protocol) link_protocols ≡ true

-- What every parser makes of its link: a node that is on, of no subscription yet, with the id of its
-- protocol, host, port and some identity.
pub record IsFresh (n : Node) : Type 0 where
  pub identity : Text
  pub id : n.id ≡ stable_id n.protocol n.endpoint.host n.endpoint.port identity
  pub enabled : n.enabled ≡ true
  pub unowned : n.subscription_id ≡ []
  pub undated : n.created_at ≡ pos 0
  pub known : IsLinked n.protocol

unfoldable pub FreshOrNone : Option Node → Type 0
FreshOrNone none = Unit
FreshOrNone (some n) = IsFresh n

IsLinked-shadowsocks : IsLinked (t "shadowsocks")
unfolding IsLinked
IsLinked-shadowsocks = refl

IsLinked-vmess : IsLinked (t "vmess")
unfolding IsLinked
IsLinked-vmess = refl

IsLinked-vless : IsLinked (t "vless")
unfolding IsLinked
IsLinked-vless = refl

IsLinked-trojan : IsLinked (t "trojan")
unfolding IsLinked
IsLinked-trojan = refl

IsLinked-socks : IsLinked (t "socks")
unfolding IsLinked
IsLinked-socks = refl

build_node-IsFresh :
    (protocol name host : Text) (port : ℕ) (authentication transport : Json) (tls : TlsConfig)
    (identity : Text)
    → IsLinked protocol
    → IsFresh (build_node protocol name host port authentication transport tls identity)
unfolding build_node
build_node-IsFresh protocol name host port authentication transport tls identity known = record {
  identity = identity;
  id = refl;
  enabled = refl;
  unowned = refl;
  undated = refl;
  known = known;
}

pub FreshOrNone-if :
    (b : Bool) (x y : Option Node)
    → FreshOrNone x
    → FreshOrNone y
    → FreshOrNone (if b then x else y)
FreshOrNone-if true x y h k = h
FreshOrNone-if false x y h k = k

pub FreshOrNone-none : FreshOrNone none
unfolding FreshOrNone
FreshOrNone-none = tt

FreshOrNone-some : {n : Node} → IsFresh n → FreshOrNone (some n)
unfolding FreshOrNone
FreshOrNone-some h = h

FreshOrNone-built :
    (refused : Bool) (protocol name host : Text) (port : ℕ) (authentication transport : Json)
    (tls : TlsConfig) (identity : Text)
    → IsLinked protocol
    → FreshOrNone (
        if refused
        then none
        else some (build_node protocol name host port authentication transport tls identity))
unfolding FreshOrNone
FreshOrNone-built true protocol name host port authentication transport tls identity known = tt
FreshOrNone-built false protocol name host port authentication transport tls identity known =
    build_node-IsFresh protocol name host port authentication transport tls identity known

FreshOrNone-elim :
    {A : Type 0} (o : Option A) (f : A → Option Node)
    → ((a : A) → FreshOrNone (f a))
    → FreshOrNone (elim o [ none ↦ none | some a ↦ f a ])
unfolding FreshOrNone
FreshOrNone-elim none f h = tt
FreshOrNone-elim (some a) f h = h a

-- Shadowsocks
FreshOrNone-from_parts :
    (k : Crates) (fragment : Option Text) (creds : Option (Text × Text)) (hostport : Text)
    → FreshOrNone (Ss.from_parts k fragment creds hostport)
unfolding FreshOrNone Ss.from_parts
FreshOrNone-from_parts k fragment none hostport = tt
FreshOrNone-from_parts k fragment (some (method, password)) hostport =
    at_host (split_hostport hostport 8388)
  where
    at_host : (hp : Option (Text × ℕ)) → FreshOrNone (Ss.at_host k fragment method password hp)
    at_host none = tt
    at_host (some (host, port)) = build_node-IsFresh _ _ host port _ _ _ _ IsLinked-shadowsocks

FreshOrNone-legacy :
    (k : Crates) (fragment decoded : Option Text) → FreshOrNone (Ss.legacy k fragment decoded)
unfolding FreshOrNone Ss.legacy
FreshOrNone-legacy k fragment none = tt
FreshOrNone-legacy k fragment (some decoded) = cut (rsplit_once b'@' (strip_last b'/' decoded))
  where
    cut : (o : Option (Text × Text)) → FreshOrNone (Ss.legacy_from k fragment o)
    cut none = tt
    cut (some (creds, hostport)) =
        FreshOrNone-from_parts k fragment (split_once b':' creds) hostport

FreshOrNone-sip002 :
    (k : Crates) (fragment : Option Text) (cut : Option (Text × Text))
    → FreshOrNone (Ss.sip002 k fragment cut)
unfolding FreshOrNone Ss.sip002
FreshOrNone-sip002 k fragment none = tt
FreshOrNone-sip002 k fragment (some (userinfo, after)) = decoded (Ss.decoded_text k userinfo)
  where
    decoded : (o : Option Text) → FreshOrNone (Ss.sip002_from k fragment o after)
    decoded none = tt
    decoded (some creds) =
        FreshOrNone-from_parts k fragment (split_once b':' creds) (Ss.before_query after)

pub FreshOrNone-ss : (k : Crates) (line : Text) → FreshOrNone (Ss.parse k line)
unfolding Ss.parse Ss.parse_main
FreshOrNone-ss k line =
    FreshOrNone-elim (strip_prefix (t "ss://") line)
      (λ body. Ss.parse_main k (Ss.cut_fragment body)) (λ body. main (Ss.cut_fragment body))
  where
    main : (m : Text × Option Text) → FreshOrNone (Ss.parse_main k m)
    main (text, fragment) =
        FreshOrNone-if (contains (t "@") text) _ _
          (FreshOrNone-sip002 k fragment (split_once b'@' text))
          (FreshOrNone-legacy k fragment (Ss.decoded_text k text))

-- VMess
FreshOrNone-node_of : (k : Crates) (v : Json) (port : ℕ) → FreshOrNone (Vmess.node_of k v port)
unfolding Vmess.node_of
FreshOrNone-node_of k v port = search (FreshOrNone-built, IsLinked-vmess)

FreshOrNone-from_json : (k : Crates) (v : Option Json) → FreshOrNone (Vmess.from_json k v)
unfolding FreshOrNone Vmess.from_json
FreshOrNone-from_json k none = tt
FreshOrNone-from_json k (some v) =
    FreshOrNone-elim (parse_unsigned u16_max (Vmess.get_str k v (t "port"))) (Vmess.node_of k v)
      (λ port. FreshOrNone-node_of k v port)

FreshOrNone-from_bytes :
    (k : Crates) (bytes : Option (List ℕ)) → FreshOrNone (Vmess.from_bytes k bytes)
unfolding FreshOrNone Vmess.from_bytes
FreshOrNone-from_bytes k none = tt
FreshOrNone-from_bytes k (some bytes) = from_text (from_utf8 bytes)
  where
    from_text : (o : Option Text) → FreshOrNone (Vmess.from_text k o)
    from_text none = tt
    from_text (some decoded) = FreshOrNone-from_json k (k.parse_json decoded)

pub FreshOrNone-vmess : (k : Crates) (line : Text) → FreshOrNone (Vmess.parse k line)
unfolding Vmess.parse
FreshOrNone-vmess k line =
    FreshOrNone-elim (strip_prefix (t "vmess://") line)
      (λ body. Vmess.from_bytes k (Vmess.b64_either k (trim body)))
      (λ body. FreshOrNone-from_bytes k (Vmess.b64_either k (trim body)))

-- The links that are URLs
FreshOrNone-with_host :
    (f : Url → Text → Option Node) (u : Option Url)
    → ((v : Url) (host : Text) → FreshOrNone (f v host))
    → FreshOrNone (Trojan.with_host f u)
unfolding FreshOrNone Trojan.with_host
FreshOrNone-with_host f none h = tt
FreshOrNone-with_host f (some u) h = FreshOrNone-elim u.host_str (f u) (h u)

pub FreshOrNone-trojan : (k : Crates) (line : Text) → FreshOrNone (Trojan.parse k line)
unfolding Trojan.parse
FreshOrNone-trojan k line =
    FreshOrNone-with_host (Trojan.parse_at k) (k.parse_url line)
      (λ u host. search (FreshOrNone-built, IsLinked-trojan))

pub FreshOrNone-vless : (k : Crates) (line : Text) → FreshOrNone (Vless.parse k line)
unfolding Vless.parse
FreshOrNone-vless k line =
    FreshOrNone-with_host (Vless.parse_at k) (k.parse_url line)
      (λ u host. search (FreshOrNone-built, IsLinked-vless))

pub FreshOrNone-socks : (k : Crates) (line : Text) → FreshOrNone (Socks.parse k line)
unfolding Socks.parse
FreshOrNone-socks k line =
    FreshOrNone-with_host (Socks.parse_at k) (k.parse_url line)
      (λ u host. search (FreshOrNone-some, build_node-IsFresh, IsLinked-socks))
