-- ===== src/Routing/Cidr.antt =====
-- What an accepted or a refused CIDR of service/network-service/src/routing/matcher.rs does to the
-- lookups.
use network_client.Prelude.{
  ℕ, ◌^◌, ◌-◌, ◌≡◌, refl, ◌≤◌, Option, none, some, List, Text, arith, take, SvcError, ok, err,
  if◌then◌else◌, split_once, parse_unsigned, trim,
}
use network_client.Routing.BitTrie.{BitNode, ip_bits}
use network_client.Routing.BitTrie
use network_client.Routing.Lpm.{longest, bits_eq, leaf_at, lookup-insert}
use network_client.Routing.Rule.{v4, v6}
use network_client.Routing.IpIndex.{Ip, Tries, insert_cidr, insert_parts, insert_ip, lookup}
use network_client.Routing.IpIndex

plain :
    {A : Type 0} (cidr : Text) (m : A) (index : Tries A) (a : Option Ip)
    → (e : SvcError) × (insert_ip cidr a (2 ^ 32 - 1) m index ≡ err e)
unfolding insert_ip
plain cidr m index (some (v4 ip)) = (_, refl)
plain cidr m index (some (v6 ip)) = (_, refl)
plain cidr m index none = (_, refl)

module _ {A : Type 0} (parse_ip : Text → Option Ip) where
  -- A CIDR text without a `/` is refused, a plain address too, whatever the address parser says.
  insert_cidr_plain :
      (cidr : Text) (m : A) (index : Tries A)
      → split_once 47 cidr ≡ none
      → (e : SvcError) × (insert_cidr parse_ip cidr m index ≡ err e)
  unfolding insert_cidr insert_parts
  insert_cidr_plain cidr m index h =
      let (e, eq) = plain cidr m index (parse_ip (trim cidr)) in (e, rw h eq)

  -- An IPv4 network of at most 32 bits is accepted. Afterwards an IPv4 address has the value of the
  -- longest of its prefixes in the old table with the network bound to the new value, and an IPv6
  -- address has the value it had.
  pub lookup-insert_cidr :
      (cidr ip p : Text) (octets : List ℕ) (prefix : ℕ) (m : A) (index : Tries A)
      → split_once 47 cidr ≡ some (ip, p)
      → parse_unsigned (2 ^ 64 - 1) p ≡ some prefix
      → parse_ip (trim ip) ≡ some (v4 octets)
      → prefix ≤ 32
      → (next : Tries A) × (insert_cidr parse_ip cidr m index ≡ ok next)
        × ((addr : List ℕ)
            → lookup (v4 addr) next
              ≡ longest
                  (λ q.
                    if bits_eq (take prefix (ip_bits octets)) q
                    then some m
                    else leaf_at q index.trie4)
                  (ip_bits addr))
        × ((addr : List ℕ) → lookup (v6 addr) next ≡ lookup (v6 addr) index)
  unfolding insert_cidr insert_parts insert_ip IpIndex.lookup
  lookup-insert_cidr cidr ip p octets prefix m index hs hp hi le = (
    record index { trie4 = BitTrie.insert (ip_bits octets) prefix m index.trie4 },
    ground (arith, hs, hp, hi, le),
    λ addr. lookup-insert (ip_bits addr) (ip_bits octets) prefix m index.trie4,
    λ addr. refl,
  )
