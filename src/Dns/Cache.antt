-- ===== src/Dns/Cache.antt =====
-- service/network-service/src/dns/cache.rs. The clock is an argument, in milliseconds.
use network_client.Prelude.{
  ℕ, ◌+◌, ◌*◌, min, max, Bool, not, Option, none, some, List, [], ◌∷◌, length, filter, Text,
  is_empty, to_ascii_lowercase, lookup, insert, remove, ltb, leb, if◌then◌else◌, ◌||◌,
}

pub record Entry (Ip : Type 0) : Type 0 where
  pub ips : List Ip
  pub expire_at : ℕ

pub record DnsCache (Ip : Type 0) : Type 0 where
  pub inner : List (Text × Entry Ip)
  pub max_size : ℕ
  pub enabled : Bool

-- `min_ttl.clamp(10, 600)`, in milliseconds.
abbrev pub lifetime : ℕ → ℕ
lifetime min_ttl = max 10 (min min_ttl 600) * 1000

module _ {Ip : Type 0} where
  unfoldable pub new : Bool → ℕ → DnsCache Ip
  new enabled max_size = record { inner = []; max_size = max max_size 16; enabled = enabled }

  -- A hit that has expired is removed.
  read_hit : ℕ → Text → Option (Entry Ip) → DnsCache Ip → DnsCache Ip × Option (List Ip)
  read_hit now key none c = (c, none)
  read_hit now key (some hit) c =
      if leb hit.expire_at now
      then (record c { inner = remove key c.inner }, none)
      else (c, some hit.ips)

  unfoldable pub get : ℕ → Text → DnsCache Ip → DnsCache Ip × Option (List Ip)
  unfolding read_hit
  get now name c =
      if not c.enabled
      then (c, none)
      else read_hit now (to_ascii_lowercase name) (lookup (to_ascii_lowercase name) c.inner) c

  -- `min_by_key(expire_at)`: the key of the least time, of equals the first in the table's order.
  unfoldable pub oldest_from : Text → ℕ → List (Text × Entry Ip) → Text
  oldest_from k time [] = k
  oldest_from k time ((j, e) ∷ g) =
      let here = oldest_from k time g in
      let there = oldest_from j e.expire_at g in if ltb e.expire_at time then there else here

  unfoldable pub drop_oldest : List (Text × Entry Ip) → List (Text × Entry Ip)
  unfolding oldest_from
  drop_oldest [] = []
  drop_oldest ((k, e) ∷ g) = remove (oldest_from k e.expire_at g) ((k, e) ∷ g)

  abbrev pub is_live : ℕ → Text × Entry Ip → Bool
  is_live now e = ltb now (Entry.expire_at e.1)

  -- The eviction of a full table: first what has expired, then the oldest entry.
  unfoldable pub evict : ℕ → ℕ → List (Text × Entry Ip) → List (Text × Entry Ip)
  unfolding drop_oldest
  evict now limit g =
      if leb limit (length g)
      then (let live = filter (is_live now) g in
          if leb limit (length live) then drop_oldest live else live)
      else g

  unfoldable pub put : ℕ → Text → List Ip → ℕ → DnsCache Ip → DnsCache Ip
  unfolding evict
  put now name ips min_ttl c = if not c.enabled || is_empty ips then c else record c {
    inner =
        insert (to_ascii_lowercase name) (record { ips = ips; expire_at = now + lifetime min_ttl })
          (evict now c.max_size c.inner);
  }

  unfoldable pub flush : DnsCache Ip → DnsCache Ip
  flush c = record c { inner = [] }
