-- ===== src/Dns/Resolver.antt =====
-- service/network-service/src/dns/resolver.rs. The sockets are the parameter `exchange`: the bytes that
-- come back for a query before the timeout, or the error. `SocketAddr::from_str` is `parse_socket`, and
-- the id of a query, which is read from the clock, an argument.
use network_client.Prelude.{
  ℕ, not, Bool, false, Option, none, some, List, [], ◌∷◌, ◌++◌, Text, t, text_eq, is_empty,
  contains, SvcResult, ok, err, dns_error, ◌>>=◌, if◌then◌else◌,
}
use network_client.Config.Schema.{DnsServer}
use network_client.Routing.IpIndex.{Ip}
use network_client.Dns.Wire.{DnsRecord, build_query, parse_response, type_a}

pub data Server (Addr : Type 0) : Type 0 where
  udp : Addr → Server Addr
  doh : Text → Server Addr

over_udp : {Addr : Type 0} → Option Addr → Option (Server Addr)
over_udp none = none
over_udp (some addr) = some (udp addr)

unfoldable pub parse_server :
    {Addr : Type 0} → (Text → Option Addr) → DnsServer → Option (Server Addr)
unfolding over_udp text_eq contains
parse_server parse_socket s =
    if text_eq s.kind (t "udp")
    then over_udp (parse_socket (if contains (t ":") s.url then s.url else s.url ++ t ":53"))
    else if text_eq s.kind (t "doh")
    then some (doh s.url)
    else none

-- What the network answers while one operation runs.
pub record Network (Addr : Type 0) : Type 0 where
  pub exchange : Server Addr → List ℕ → SvcResult (List ℕ)
  pub query_id : Server Addr → ℕ → ℕ  -- u16

or_malformed : Option (List DnsRecord) → SvcResult (List DnsRecord)
or_malformed none = err (dns_error (t "malformed DNS response"))
or_malformed (some records) = ok records

unfoldable pub query_server :
    {Addr : Type 0} → Network Addr → Server Addr → Text → ℕ → SvcResult (List DnsRecord)
unfolding or_malformed parse_response build_query
query_server net server name qtype =
    net.exchange server (build_query name qtype (net.query_id server qtype)) >>= λ resp.
    or_malformed (parse_response resp)

-- `filter_map(|r| r.ip)`
unfoldable pub ips_of : List DnsRecord → List Ip
ips_of [] = []
ips_of (r ∷ rs) = elim (r.ip) [ none ↦ ips_of rs | some ip ↦ ip ∷ ips_of rs ]

found : SvcResult (List DnsRecord) → Bool × List Ip
unfolding ips_of
found (ok records) = (not (is_empty (ips_of records)), ips_of records)
found (err _) = (false, [])

-- Whether there is an address, and the addresses; the measured time is left out.
unfoldable pub ping_server : {Addr : Type 0} → Network Addr → Server Addr → Text → Bool × List Ip
unfolding query_server found
ping_server net server name = found (query_server net server name type_a)
