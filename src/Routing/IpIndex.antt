-- ===== src/Routing/IpIndex.antt =====
-- `IpIndex` of service/network-service/src/routing/matcher.rs and `GeoIp::insert_cidr` and `country`
-- of service/network-service/src/routing/geoip.rs. `IpAddr::from_str` is the standard library's: it
-- is the parameter `parse_ip`, which returns the octets.
use network_client.Prelude.{
  ℕ, ◌^◌, ◌-◌, Option, none, some, List, ◌++◌, Text, t, trim, split_once, parse_unsigned, ltb,
  config_invalid, SvcResult, ok, err, if◌then◌else◌,
}
use network_client.Routing.BitTrie
use network_client.Routing.BitTrie.{BitNode, ip_bits}
use network_client.Routing.Rule.{IpAddr, v4, v6}

abbrev pub Ip : Type 0
Ip = IpAddr (List ℕ)

-- The two tries; the leaf is a rule's match in `IpIndex` and a country in `GeoIp`.
pub record Tries (A : Type 0) : Type 0 where
  pub trie4 : BitNode A
  pub trie6 : BitNode A

module _ {A : Type 0} where
  unfoldable pub new : Tries A
  new = record { trie4 = BitTrie.new; trie6 = BitTrie.new }

  -- The guard and the insertion for the family of the address.
  unfoldable pub insert_ip : Text → Option Ip → ℕ → A → Tries A → SvcResult (Tries A)
  insert_ip cidr (some (v4 ip)) prefix m index =
      if ltb 32 prefix
      then err (config_invalid (t "bad v4 prefix: " ++ cidr))
      else ok (record index { trie4 = BitTrie.insert (ip_bits ip) prefix m index.trie4 })
  insert_ip cidr (some (v6 ip)) prefix m index =
      if ltb 128 prefix
      then err (config_invalid (t "bad v6 prefix: " ++ cidr))
      else ok (record index { trie6 = BitTrie.insert (ip_bits ip) prefix m index.trie6 })
  insert_ip cidr none prefix m index = err (config_invalid (t "bad cidr: " ++ cidr))

  -- The two results of `split_once('/')` and of the parse of the prefix.
  unfoldable pub insert_parts :
      (parse_ip : Text → Option Ip) (none_prefix : ℕ)
      → Text
      → Option (Text × Text)
      → A
      → Tries A
      → SvcResult (Tries A)
  unfolding insert_ip
  insert_parts parse_ip none_prefix cidr none m index =
      insert_ip cidr (parse_ip (trim cidr)) none_prefix m index
  insert_parts parse_ip none_prefix cidr (some (ip, p)) m index =
      elim (parse_unsigned (2 ^ 64 - 1) p) [
        | none ↦ err (config_invalid (t "bad prefix: " ++ cidr))
        | some prefix ↦ insert_ip cidr (parse_ip (trim ip)) prefix m index
      ]

  -- `IpIndex::insert_cidr`. Without a `/`, the prefix is `u32::MAX`.
  unfoldable pub insert_cidr :
      (parse_ip : Text → Option Ip) → Text → A → Tries A → SvcResult (Tries A)
  unfolding insert_parts
  insert_cidr parse_ip cidr m index =
      insert_parts parse_ip (2 ^ 32 - 1) cidr (split_once 47 cidr) m index

  -- `IpIndex::lookup` and `GeoIp::country`.
  unfoldable pub lookup : Ip → Tries A → Option A
  lookup (v4 ip) index = BitTrie.lookup (ip_bits ip) index.trie4
  lookup (v6 ip) index = BitTrie.lookup (ip_bits ip) index.trie6
