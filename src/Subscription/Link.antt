-- ===== src/Subscription/Link.antt =====
-- The shared part of service/network-service/src/subscription/parser/mod.rs, the share links, and the
-- helpers of ss.rs and vmess.rs that fill up a base64 text.
use Prim.Native.Nat.{bit_xor}
use network_client.Prelude.{
  ℕ, zero, suc, ◌+◌, ◌-◌, ◌*◌, ◌/◌, ◌%◌, ◌^◌, ◌==◌, true, false, Option, none, some, List, [], ◌∷◌,
  ◌++◌, length, ltb, if◌then◌else◌, Text, t, is_empty, trim, strip_prefix, split_once, rsplit_once,
  as_bytes, from_utf8_lossy, decimal, parse_unsigned, Json, Members, pos,
}
use network_client.Nodes.Model.{Node, TlsConfig}
use network_client.Subscription.Crates.{Crates}

abbrev pub u16_max : ℕ
u16_max = 65_535

unfoldable pub fnv : ℕ → List ℕ → ℕ
fnv hash [] = hash
fnv hash (b ∷ bytes) = fnv (bit_xor hash b * 0x0000_0100_0000_01b3 % 2 ^ 64) bytes

hex_digit : ℕ → ℕ
hex_digit d = if ltb d 10 then b'0' + d else b'a' + d - 10

-- The given number of digits, the last ones of the number.
hex : ℕ → ℕ → Text
unfolding hex_digit
hex zero n = []
hex (suc k) n = hex k (n / 16) ++ hex_digit (n % 16) ∷ []

unfoldable pub stable_id : Text → Text → ℕ → Text → Text
unfolding fnv hex
stable_id protocol host port identity =
    let key = protocol ++ t "|" ++ host ++ t "|" ++ decimal port ++ t "|" ++ identity in
    t "node_" ++ hex 16 (fnv 0xcbf2_9ce4_8422_2325 (as_bytes key))

or_fallback : Text → Text → Text
or_fallback s fallback = if is_empty s then fallback else s

unfoldable pub decode_name : Crates → Option Text → Text → Text
unfolding or_fallback from_utf8_lossy
decode_name k none fallback = fallback
decode_name k (some f) fallback = or_fallback (from_utf8_lossy (k.percent_decode f)) fallback

abbrev pub unwrap_or {ℓ} : {A : Type ℓ} → Option A → A → A
unwrap_or none d = d
unwrap_or (some a) d = a

-- The port behind `]`.
unfoldable pub port_after : Text → ℕ → ℕ
port_after tail default_port = elim (strip_prefix (t ":") tail) [
  | none ↦ default_port
  | some p ↦ unwrap_or (parse_unsigned u16_max p) default_port
]

unfoldable pub bracketed : Option (Text × Text) → ℕ → Option (Text × ℕ)
unfolding port_after
bracketed none default_port = none
bracketed (some (v6, tail)) default_port = some (v6, port_after tail default_port)

unfoldable pub with_port : Text → Option ℕ → Option (Text × ℕ)
with_port host none = none
with_port host (some port) = some (host, port)

unfoldable pub plain : Option (Text × Text) → Text → ℕ → Option (Text × ℕ)
unfolding with_port
plain none s default_port = some (s, default_port)
plain (some (host, port)) s default_port = with_port host (parse_unsigned u16_max port)

unfoldable pub hostport_of : Option Text → Text → ℕ → Option (Text × ℕ)
unfolding bracketed plain
hostport_of (some rest) s default_port = bracketed (split_once b']' rest) default_port
hostport_of none s default_port = plain (rsplit_once b':' s) s default_port

unfoldable pub split_hostport : Text → ℕ → Option (Text × ℕ)
unfolding hostport_of
split_hostport s default_port = hostport_of (strip_prefix (t "[") (trim s)) (trim s) default_port

abbrev pub json_text : Text → Json
json_text s = Json.string s

-- `json!({})`, and a member in front of an object's members.
abbrev pub empty_object : Json
empty_object = Json.object Members.end

abbrev pub one_member : Text → Text → Members → Members
one_member key value ms = Members.member key (Json.string value) ms

-- `TlsConfig::default()`
abbrev pub no_tls : TlsConfig
no_tls = record { enabled = false; server_name = []; insecure = false; alpn = [] }

unfoldable pub build_node : Text → Text → Text → ℕ → Json → Json → TlsConfig → Text → Node
unfolding stable_id
build_node protocol name host port authentication transport tls identity_for_id = record {
  id = stable_id protocol host port identity_for_id;
  name = name;
  protocol = protocol;
  endpoint = record { host = host; port = port };
  authentication = authentication;
  transport = transport;
  tls = tls;
  metadata = empty_object;
  subscription_id = [];
  enabled = true;
  created_at = pos 0;
}

-- `format!("{host}:{port}")`
abbrev pub host_port : Text → ℕ → Text
host_port host port = host ++ t ":" ++ decimal port

-- The loop that fills up with `=`; it is left after three rounds at most.
unfoldable pub fill : ℕ → Text → Text
fill zero s = s
fill (suc fuel) s = if length (as_bytes s) % 4 == 0 then s else fill fuel (s ++ b'=' ∷ [])

unfoldable pub pad : Text → Text
unfolding fill
pad = fill 3

-- `a.or_else(|_| b).ok()`
abbrev pub or_else {ℓ} : {A : Type ℓ} → Option A → Option A → Option A
or_else none b = b
or_else (some a) b = some a
