-- ===== src/Dns/Manager.antt =====
-- service/network-service/src/dns/manager.rs. The state is `DnsManager` with its configuration, its
-- file and its cache; `events` counts the messages `dns.changed`.
pub mod Answers
pub mod Tuned
use network_client.Prelude.{
  ℕ, suc, Bool, true, false, not, ◌&&◌, ◌||◌, Option, none, some, List, [], ◌∷◌, ◌++◌, Text, t,
  text_eq, is_empty, SvcResult, ok, err, SvcError, dns_error, if◌then◌else◌,
}
use network_client.Config.Schema.{DnsConfig, DnsServer}
use network_client.Routing.IpIndex.{Ip}
use network_client.Dns.Cache.{DnsCache}
use network_client.Dns.Cache
use network_client.Dns.Wire.{DnsRecord, type_a, type_aaaa}
use network_client.Dns.Resolver.{Server, Network, parse_server, query_server, ping_server, ips_of}

pub data ResolvePolicy : Type 0 where
  direct proxy any_server : ResolvePolicy

pub record DnsManager : Type 0 where
  pub cfg : DnsConfig
  pub file : DnsConfig  -- dns.json
  pub cache : DnsCache Ip
  pub events : ℕ

unfoldable pub load : DnsConfig → DnsManager
unfolding Cache.new
load file = record {
  cfg = file;
  file = file;
  cache = Cache.new file.cache file.cache_size;
  events = 0;
}

-- The new cache, which is flushed once more where it is switched off.
unfoldable pub new_cache : DnsConfig → DnsCache Ip
unfolding Cache.new Cache.flush
new_cache cfg =
    if not cfg.cache
    then Cache.flush (Cache.new cfg.cache cfg.cache_size)
    else Cache.new cfg.cache cfg.cache_size

-- `written` is the answer of `save_dns`.
unfoldable pub set_config :
    SvcResult (Unit {0}) → DnsConfig → DnsManager → DnsManager × SvcResult (Unit {0})
unfolding new_cache
set_config (err e) cfg m = (m, err e)
set_config (ok _) cfg m =
    (record { cfg = cfg; file = cfg; cache = new_cache cfg; events = suc m.events }, ok tt)

unfoldable pub flush_cache : DnsManager → DnsManager
unfolding Cache.flush
flush_cache m = record m { cache = Cache.flush m.cache }

abbrev pub has_tag : ResolvePolicy → Text → Bool
has_tag direct tag = text_eq tag (t "direct")
has_tag proxy tag = text_eq tag (t "proxy")
has_tag any_server tag = false

-- `last_err.unwrap_or_else(..)`
unfoldable pub last_or : Option SvcError → SvcError
last_or none = dns_error (t "no dns server")
last_or (some e) = e

or_nothing : SvcResult (List DnsRecord) → List Ip
unfolding ips_of
or_nothing (ok records) = ips_of records
or_nothing (err _) = []

or_empty : List Ip → SvcResult (List Ip)
or_empty [] = err (dns_error (t "empty answer"))
or_empty (ip ∷ ips) = ok (ip ∷ ips)

-- What one server gives: its A answer must come, the AAAA answer may be missing.
unfoldable pub merge : SvcResult (List DnsRecord) → SvcResult (List DnsRecord) → SvcResult (List Ip)
unfolding or_nothing or_empty
merge (err e) aaaa = err e
merge (ok a) aaaa = or_empty (ips_of a ++ or_nothing aaaa)

-- A success ends the loop over the servers, a failure goes on to the next one.
unfoldable pub or_next :
    SvcResult (List Ip) → (SvcError → SvcResult (List Ip)) → SvcResult (List Ip)
or_next (ok ips) next = ok ips
or_next (err e) next = next e

-- A name that is an address is its own answer.
unfoldable pub literal_or :
    Option Ip → DnsManager → DnsManager × SvcResult (List Ip) → DnsManager × SvcResult (List Ip)
literal_or (some ip) m asked = (m, ok (ip ∷ []))
literal_or none m asked = asked

keep : ℕ → Text → DnsManager → SvcResult (List Ip) → DnsManager × SvcResult (List Ip)
unfolding Cache.put
keep now name m (ok ips) = (record m { cache = Cache.put now name ips 60 m.cache }, ok ips)
keep now name m (err e) = (m, err e)

-- The measured time is left out.
pub record ServerTestResult : Type 0 where
  pub server : Text
  pub is_ok : Bool
  pub ips : List Ip

probed : Text → Bool × List Ip → ServerTestResult
probed url (is_ok, ips) = record { server = url; is_ok = is_ok; ips = ips }

module _ {Addr : Type 0} where
  -- The servers with the tag of the policy, and those without a tag.
  unfoldable pub pick :
      (Text → Option Addr)
      → ResolvePolicy
      → List DnsServer
      → List (Text × Server Addr) × List (Text × Server Addr)
  unfolding parse_server
  pick parse_socket policy [] = ([], [])
  pick parse_socket policy (s ∷ ss) =
      let rest = pick parse_socket policy ss in
      elim (parse_server parse_socket s) [
        | none ↦ rest
        | some server ↦
            if has_tag policy s.tag
            then ((s.url, server) ∷ rest.0, rest.1)
            else if is_empty s.tag
            then (rest.0, (s.url, server) ∷ rest.1)
            else rest
      ]

  unfoldable pub usable : (Text → Option Addr) → List DnsServer → List (Text × Server Addr)
  unfolding parse_server
  usable parse_socket [] = []
  usable parse_socket (s ∷ ss) =
      let rest = usable parse_socket ss in
      elim (parse_server parse_socket s) [ none ↦ rest | some server ↦ (s.url, server) ∷ rest ]

  unfoldable pub select_servers :
      (Text → Option Addr) → ResolvePolicy → DnsManager → List (Text × Server Addr)
  unfolding pick usable
  select_servers parse_socket policy m =
      let (picked, untagged) = pick parse_socket policy m.cfg.servers in
      let all = picked ++ untagged in
      if is_empty all then usable parse_socket m.cfg.servers else all

  -- The loop over the servers.
  unfoldable pub try_servers :
      Network Addr → Text → List (Text × Server Addr) → Option SvcError → SvcResult (List Ip)
  unfolding query_server merge last_or or_next
  try_servers net name [] last_err = err (last_or last_err)
  try_servers net name ((_, server) ∷ servers) last_err =
      or_next (merge (query_server net server name type_a) (query_server net server name type_aaaa))
        (λ e. try_servers net name servers (some e))

  -- The cache comes first.
  unfoldable pub ask :
      (Text → Option Addr)
      → Network Addr
      → ℕ
      → Text
      → ResolvePolicy
      → DnsManager
      → DnsCache Ip × Option (List Ip)
      → DnsManager × SvcResult (List Ip)
  unfolding select_servers try_servers keep
  ask parse_socket net now name policy m (c, some ips) = (record m { cache = c }, ok ips)
  ask parse_socket net now name policy m (c, none) =
      keep now name (record m { cache = c })
        (try_servers net name (select_servers parse_socket policy m) none)

  unfoldable pub resolve :
      (Text → Option Ip)
      → (Text → Option Addr)
      → Network Addr
      → ℕ
      → Text
      → ResolvePolicy
      → DnsManager
      → DnsManager × SvcResult (List Ip)
  unfolding ask Cache.get literal_or
  resolve parse_ip parse_socket net now name policy m =
      literal_or (parse_ip name) m
        (ask parse_socket net now name policy m (Cache.get now name m.cache))

  -- The probe of every server that can be read: its url and what it answers.
  unfoldable pub test_servers :
      (Text → Option Addr) → Network Addr → Text → List DnsServer → List ServerTestResult
  unfolding parse_server ping_server probed
  test_servers parse_socket net name [] = []
  test_servers parse_socket net name (s ∷ ss) =
      let rest = test_servers parse_socket net name ss in
      elim (parse_server parse_socket s) [
        | none ↦ rest
        | some server ↦ probed s.url (ping_server net server name) ∷ rest
      ]

  unfoldable pub test_all :
      (Text → Option Addr) → Network Addr → Text → DnsManager → List ServerTestResult
  unfolding test_servers
  test_all parse_socket net name m =
      test_servers parse_socket net (if is_empty name then t "www.microsoft.com" else name)
        m.cfg.servers
