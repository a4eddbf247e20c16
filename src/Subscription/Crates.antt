-- ===== src/Subscription/Crates.antt =====
-- What service/network-service/src/subscription uses of other crates: the two engines of base64, the
-- percent decoding, the URLs and the JSON texts. All of it is a parameter.
use network_client.Prelude.{ℕ, List, Option, Text, Json}

-- The parts of a `Url` that the parsers read; the query is decoded.
pub record Url : Type 0 where
  pub host_str : Option Text
  pub port : Option ℕ  -- u16
  pub username : Text
  pub password : Option Text
  pub fragment : Option Text
  pub query_pairs : List (Text × Text)

pub record Crates : Type 0 where
  pub url_safe_no_pad : Text → Option (List ℕ)
  pub standard : Text → Option (List ℕ)
  pub percent_decode : Text → List ℕ
  pub parse_url : Text → Option Url
  pub parse_json : Text → Option Json
  pub show_json : Json → Text
