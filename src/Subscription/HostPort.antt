-- ===== src/Subscription/HostPort.antt =====
-- `split_hostport` of service/network-service/src/subscription/parser/mod.rs on a host and a port as
-- they are printed.
use network_client.Prelude.{
  ℕ, ◌≤◌, ◌<◌, ◌≡◌, ◌≢◌, ◌⊎◌, inr, refl, sym, ap, ◌∙◌, arith, false, none, some, [], ◌∷◌, ◌++◌,
  Text, t, is_whitespace, trim, trim_ends, strip_prefix, Lacks, IsDigits, IsDigits-decimal, decimal,
  decimal_last, parse_unsigned-decimal, rsplit_once, rsplit_once-append, split_once,
  split_once-append,
}
use network_client.Subscription.Link.{
  u16_max, split_hostport, hostport_of, bracketed, port_after, plain, with_port, host_port,
  unwrap_or,
}
use mathlib.Core.List.{append_assoc}

-- A text that does not begin with white space or with a bracket.
abbrev pub IsHost : Text → Type 0
IsHost [] = ⊥
IsHost (c ∷ s) = (is_whitespace c ≡ false) × (c ≢ b'[')

pub Lacks-IsDigits : (d : ℕ) (s : Text) → d < 48 ⊎ 57 < d → IsDigits s → Lacks d s
Lacks-IsDigits d [] out h = tt
Lacks-IsDigits d (c ∷ s) out (lo, hi, h) = (ground arith, Lacks-IsDigits d s out h)

IsDigits-whitespace : (c : ℕ) → 48 ≤ c → c ≤ 57 → is_whitespace c ≡ false
unfolding is_whitespace
IsDigits-whitespace c lo hi = ground arith

-- A text that ends in a printed number and begins with no white space is left by `trim`.
trim-decimal :
    (a : ℕ) (s : Text) (n : ℕ)
    → is_whitespace a ≡ false
    → trim (a ∷ s ++ decimal n) ≡ a ∷ s ++ decimal n
trim-decimal a s n ha =
    let (digits, c, e, lo, hi) = decimal_last n in
    let ends : a ∷ s ++ decimal n ≡ a ∷ (s ++ digits) ++ c ∷ [] =
      ap (λ x. a ∷ s ++ x) e ∙ sym (append_assoc (a ∷ s) digits (c ∷ [])) in
    ap trim ends ∙ trim_ends a (s ++ digits) c ha (IsDigits-whitespace c lo hi) ∙ sym ends

-- The text `host:port` is read as its host and its port, whatever the default: the host is not empty and
-- begins neither with white space nor with a bracket, and may have colons of its own.
pub split_hostport-host_port :
    (host : Text) (port default_port : ℕ)
    → IsHost host
    → port ≤ u16_max
    → split_hostport (host_port host port) default_port ≡ some (host, port)
unfolding split_hostport hostport_of plain with_port
split_hostport-host_port [] port default_port good fits = absurd good
split_hostport-host_port (a ∷ s) port default_port (no_space, no_bracket) fits =
    let host = a ∷ s in
    let text = host_port host port in
    let trimmed : trim text ≡ text = trim-decimal a (s ++ t ":") port no_space in
    let open_bracket : strip_prefix (t "[") text ≡ none = ground arith in
    let cut : rsplit_once b':' text ≡ some (host, decimal port) =
      ap (rsplit_once b':') (append_assoc host (t ":") (decimal port))
      ∙ rsplit_once-append b':' host (decimal port)
          (Lacks-IsDigits b':' (decimal port) (inr (omega arith)) (IsDigits-decimal port)) in
    ap (λ x. hostport_of (strip_prefix (t "[") x) x default_port) trimmed
    ∙ ap (λ x. hostport_of x text default_port) open_bracket
    ∙ ap (λ x. plain x text default_port) cut
    ∙ ap (with_port host) (parse_unsigned-decimal u16_max port fits)

bracket_space : is_whitespace b'[' ≡ false
unfolding is_whitespace
bracket_space = refl

-- The text `[address]:port` is read as the address and the port, whatever the default, where the address
-- has no closing bracket.
pub split_hostport_brackets :
    (address : Text) (port default_port : ℕ)
    → Lacks b']' address
    → port ≤ u16_max
    → split_hostport (t "[" ++ address ++ t "]:" ++ decimal port) default_port
      ≡ some (address, port)
unfolding split_hostport hostport_of bracketed port_after
split_hostport_brackets address port default_port good fits =
    let text = t "[" ++ address ++ t "]:" ++ decimal port in
    let trimmed : trim text ≡ text = trim-decimal b'[' (address ++ t "]:") port bracket_space in
    let cut : split_once b']' (address ++ t "]:" ++ decimal port)
        ≡ some (address, t ":" ++ decimal port) =
      ap (split_once b']') (append_assoc address (t "]:") (decimal port))
      ∙ split_once-append b']' address (t ":" ++ decimal port) good in
    ap (λ x. hostport_of (strip_prefix (t "[") x) x default_port) trimmed
    ∙ ap (λ x. bracketed x default_port) cut
    ∙ ap (λ p. some (address, unwrap_or p default_port)) (parse_unsigned-decimal u16_max port fits)
