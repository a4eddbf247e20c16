-- ===== src/Route/Endpoint.antt =====
-- `references_endpoint` of route/manager.rs, and the proxy string that the service itself writes.
use network_client.Prelude.{
  ℕ, ◌≤◌, ◌≡◌, refl, ap, ◌∙◌, Bool, true, false, ◌||◌, [], ◌∷◌, ◌++◌, map, Text, t, text_eq, trim,
  split, any, decimal, IsDigits, IsDigits-decimal, decimal_last, Lacks, split-append, split-Lacks,
  trim_ends, is_whitespace, text_eq_refl, arith,
}

unfoldable pub references_endpoint : Text → Text → Bool
references_endpoint spec host_port =
    any
      (λ part.
        text_eq part host_port
        || text_eq part (t "http=" ++ host_port)
        || text_eq part (t "https=" ++ host_port)
        || text_eq part (t "socks=" ++ host_port))
      (map trim (split b';' spec))

-- `format!("http={host_port};https={host_port}")`
unfoldable pub proxy_spec : Text → Text
proxy_spec host_port = t "http=" ++ (host_port ++ (t ";https=" ++ host_port))

-- `format!("127.0.0.1:{port}")`
unfoldable pub local_endpoint : ℕ → Text
local_endpoint port = t "127.0.0.1:" ++ decimal port

Lacks-append : (d : ℕ) (s r : Text) → Lacks d s → Lacks d r → Lacks d (s ++ r)
Lacks-append d [] r h k = k
Lacks-append d (c ∷ s) r h k = (h.0, Lacks-append d s r h.1 k)

Lacks-of_IsDigits : (s : Text) → IsDigits s → Lacks b';' s
Lacks-of_IsDigits [] h = tt
Lacks-of_IsDigits (c ∷ s) h = (omega arith, Lacks-of_IsDigits s h.2)

is_whitespace_digit : (c : ℕ) → 48 ≤ c → c ≤ 57 → is_whitespace c ≡ false
unfolding is_whitespace
is_whitespace_digit c h k = ground arith

-- The first part of our own proxy string is the explicit `http=` entry.
first_part :
    (host_port : Text)
    → split b';' (proxy_spec host_port) ≡ (t "http=" ++ host_port) ∷ (t "https=" ++ host_port) ∷ []
    → trim (t "http=" ++ host_port) ≡ t "http=" ++ host_port
    → references_endpoint (proxy_spec host_port) host_port ≡ true
unfolding references_endpoint
first_part host_port parts trimmed =
    ground (arith, parts, trimmed, text_eq_refl (t "http=" ++ host_port))

entry_Lacks : (port : ℕ) (s : Text) → Lacks b';' s → Lacks b';' (s ++ decimal port)
entry_Lacks port s h =
    Lacks-append b';' s (decimal port) h (Lacks-of_IsDigits (decimal port) (IsDigits-decimal port))

split-proxy_spec :
    (port : ℕ)
    → split b';' (proxy_spec (local_endpoint port))
      ≡ (t "http=" ++ local_endpoint port) ∷ (t "https=" ++ local_endpoint port) ∷ []
unfolding local_endpoint proxy_spec
split-proxy_spec port =
    split-append b';' (t "http=127.0.0.1:" ++ decimal port) (t "https=127.0.0.1:" ++ decimal port)
      (entry_Lacks port (t "http=127.0.0.1:") (omega arith))
    ∙ ap (λ parts. (t "http=127.0.0.1:" ++ decimal port) ∷ parts)
        (split-Lacks b';' (t "https=127.0.0.1:" ++ decimal port)
          (entry_Lacks port (t "https=127.0.0.1:") (omega arith)))

is_whitespace_h : is_whitespace b'h' ≡ false
unfolding is_whitespace
is_whitespace_h = refl

trim_entry : (port : ℕ) → trim (t "http=" ++ local_endpoint port) ≡ t "http=" ++ local_endpoint port
unfolding local_endpoint
trim_entry port =
    let (s, c, e, h, k) = decimal_last port in
    rw e (trim_ends b'h' (t "ttp=127.0.0.1:" ++ s) c is_whitespace_h (is_whitespace_digit c h k))

-- The proxy string that the service writes for its own inbound is recognised as its own, at every
-- port.
pub references_endpoint-proxy_spec :
    (port : ℕ) → references_endpoint (proxy_spec (local_endpoint port)) (local_endpoint port) ≡ true
references_endpoint-proxy_spec port =
    first_part (local_endpoint port) (split-proxy_spec port) (trim_entry port)
