-- ===== src/Prelude/Error.antt =====
-- `SvcError`, `SvcResult` and `SvcError::code` (service/network-service/src/common.rs).
use Prim.Native.Nat.{ℕ}
use mathlib.Core.List.{◌++◌}
use network_client.Prelude.Texts.{Text, t}

-- `#[from]` errors of other crates carry the text of their message.
pub data SvcError : Type 0 where
  invalid_state : Text → Text → SvcError
  config_invalid not_found node_not_found subscription parse_error : Text → SvcError
  core_error tun_error route_error dns_error proxy_error auth : Text → SvcError
  timeout : SvcError
  already_running io json http db other : Text → SvcError

pub data SvcResult {ℓ} (A : Type ℓ) : Type ℓ where
  ok : A → SvcResult A
  err : SvcError → SvcResult A

-- `?`
infixl 5 ◌>>=◌ ◌>>◌
abbrev pub ◌>>=◌ {ℓ κ} : {A : Type ℓ} {B : Type κ} → SvcResult A → (A → SvcResult B) → SvcResult B
ok a >>= f = f a
err e >>= f = err e

abbrev pub ◌>>◌ {ℓ} : {B : Type ℓ} → SvcResult (Unit {0}) → SvcResult B → SvcResult B
m >> k = m >>= λ _. k

unfoldable pub error_code : SvcError → ℕ
error_code (invalid_state _ _) = 409
error_code (config_invalid _) = 422
error_code (parse_error _) = 422
error_code (json _) = 422
error_code (not_found _) = 404
error_code (node_not_found _) = 404
error_code (auth _) = 401
error_code timeout = 504
error_code (already_running _) = 409
error_code (subscription _) = 600
error_code (core_error _) = 601
error_code (tun_error _) = 602
error_code (route_error _) = 603
error_code (dns_error _) = 604
error_code (proxy_error _) = 605
error_code (io _) = 500
error_code (http _) = 500
error_code (db _) = 500
error_code (other _) = 500

-- `to_string`, by the `#[error]` line of each variant.
unfoldable pub to_string : SvcError → Text
to_string (invalid_state a b) = t "invalid state transition: " ++ (a ++ (t " -> " ++ b))
to_string (config_invalid s) = t "config invalid: " ++ s
to_string (not_found s) = t "not found: " ++ s
to_string (node_not_found s) = t "node not found: " ++ s
to_string (subscription s) = t "subscription error: " ++ s
to_string (parse_error s) = t "parse error: " ++ s
to_string (core_error s) = t "core error: " ++ s
to_string (tun_error s) = t "tun error: " ++ s
to_string (route_error s) = t "route error: " ++ s
to_string (dns_error s) = t "dns failed: " ++ s
to_string (proxy_error s) = t "proxy failed: " ++ s
to_string timeout = t "network timeout"
to_string (auth s) = t "authentication failed: " ++ s
to_string (already_running s) = t "already running: " ++ s
to_string (io s) = t "io: " ++ s
to_string (json s) = t "json: " ++ s
to_string (http s) = t "http: " ++ s
to_string (db s) = t "db: " ++ s
to_string (other s) = s
