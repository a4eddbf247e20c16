-- ===== src/Dns/Manager/Answers.antt =====
-- What `resolve` of dns/manager.rs answers.
use network_client.Prelude.{
  ℕ, ◌+◌, ◌<◌, ◌^◌, ◌≡◌, refl, sym, ap, ◌∙◌, arith, true, Option, none, some, List, [], ◌∷◌, ◌++◌,
  map, length, Text, to_ascii_lowercase, SvcResult, ok, err, SvcError, if◌then◌else◌, ◌==◌, ◌&&◌,
}
use network_client.Routing.Rule.{v4, v6}
use network_client.Routing.IpIndex.{Ip}
use network_client.Dns.Cache.{DnsCache}
use network_client.Dns.Cache
use network_client.Dns.Fresh.{get-put}
use network_client.Dns.Wire.{DnsRecord, type_a, type_aaaa, build_query, labels_of, join, address}
use network_client.Dns.Wire.Names.{AreLabels}
use network_client.Dns.Wire.Answer.{Resource, AllFit, reply, record_of, parse_response-reply}
use network_client.Dns.Resolver.{Server, Network, query_server, ips_of}
use network_client.Dns.Manager.{
  DnsManager, ResolvePolicy, resolve, ask, keep, select_servers, try_servers, merge, or_empty,
  or_nothing, or_next, literal_or,
}

-- The addresses among the answers of a server.
unfoldable pub addresses : List Resource → List Ip
addresses [] = []
addresses (a ∷ rs) =
    let rest = addresses rs in
    if a.rtype == 1 && length a.rdata == 4
    then v4 a.rdata ∷ rest
    else if a.rtype == 28 && length a.rdata == 16
    then v6 a.rdata ∷ rest
    else rest

ips_of-record_of :
    (name : Text) (rs : List Resource) → ips_of (map (record_of name) rs) ≡ addresses rs
unfolding ips_of addresses address
ips_of-record_of name [] = refl
ips_of-record_of name (a ∷ rs) = ground (arith, ips_of-record_of name rs)

-- A success has an address.
IsFilled : SvcResult (List Ip) → Type 0
IsFilled (ok []) = ⊥
IsFilled (ok (_ ∷ _)) = Unit
IsFilled (err _) = Unit

IsFilled-or_next :
    (r : SvcResult (List Ip)) (next : SvcError → SvcResult (List Ip))
    → IsFilled r
    → ((e : SvcError) → IsFilled (next e))
    → IsFilled (or_next r next)
unfolding or_next
IsFilled-or_next (ok ips) next h k = h
IsFilled-or_next (err e) next h k = k e

IsFilled-or_empty : (ips : List Ip) → IsFilled (or_empty ips)
unfolding or_empty IsFilled
IsFilled-or_empty [] = tt
IsFilled-or_empty (ip ∷ ips) = tt

IsFilled-merge : (a aaaa : SvcResult (List DnsRecord)) → IsFilled (merge a aaaa)
unfolding merge IsFilled
IsFilled-merge (err e) aaaa = tt
IsFilled-merge (ok a) aaaa = IsFilled-or_empty (ips_of a ++ or_nothing aaaa)

-- The answer that is kept, asked for again.
get-keep :
    (now later : ℕ) (name asked : Text) (ips : List Ip) (m : DnsManager) (r : SvcResult (List Ip))
    → m.cache.enabled ≡ true
    → to_ascii_lowercase asked ≡ to_ascii_lowercase name
    → later < now + 60_000
    → IsFilled r
    → r ≡ ok ips
    → (Cache.get later asked (keep now name m r).0.cache).1 ≡ some ips
unfolding keep IsFilled
get-keep now later name asked ips m (err e) on same soon filled is = ground arith
get-keep now later name asked ips m (ok []) on same soon filled is = absurd filled
get-keep now later name asked ips m (ok (ip ∷ more)) on same soon filled is =
    ground (arith, get-put now later name asked ip more 60 m.cache on same)

keep_answer :
    (now : ℕ) (name : Text) (m : DnsManager) (r : SvcResult (List Ip)) → (keep now name m r).1 ≡ r
unfolding keep
keep_answer now name m (ok ips) = refl
keep_answer now name m (err e) = refl

get-enabled :
    (now : ℕ) (name : Text) (c : DnsCache Ip) → (Cache.get now name c).0.enabled ≡ c.enabled
unfolding Cache.get
get-enabled now name c = ground arith

module _ {Addr : Type 0} where
  query_server-reply :
      (net : Network Addr) (server : Server Addr) (name : Text) (qtype asked id : ℕ)
      (rs : List Resource)
      → AreLabels (labels_of name)
      → AllFit rs
      → length rs < 2 ^ 16
      → net.exchange server (build_query name qtype (net.query_id server qtype))
        ≡ ok (reply name asked id rs)
      → query_server net server name qtype ≡ ok (map (record_of (join (labels_of name))) rs)
  unfolding query_server
  query_server-reply net server name qtype asked id rs good fit few e =
      rw (e, query_server, parse_response-reply name asked id rs good fit few) refl

  IsFilled-try_servers :
      (net : Network Addr) (name : Text) (servers : List (Text × Server Addr))
      (last : Option SvcError)
      → IsFilled (try_servers net name servers last)
  unfolding try_servers IsFilled
  IsFilled-try_servers net name [] last = tt
  IsFilled-try_servers net name ((_, server) ∷ servers) last =
      IsFilled-or_next _ _
        (IsFilled-merge (query_server net server name type_a)
          (query_server net server name type_aaaa))
        (λ e. IsFilled-try_servers net name servers (some e))

  try_servers-first :
      (net : Network Addr) (name url : Text) (server : Server Addr)
      (servers : List (Text × Server Addr)) (last : Option SvcError) (a aaaa : List Resource)
      {ip : Ip} {ips : List Ip}
      → query_server net server name type_a ≡ ok (map (record_of (join (labels_of name))) a)
      → query_server net server name type_aaaa ≡ ok (map (record_of (join (labels_of name))) aaaa)
      → addresses a ++ addresses aaaa ≡ ip ∷ ips
      → try_servers net name ((url, server) ∷ servers) last ≡ ok (ip ∷ ips)
  unfolding try_servers merge or_nothing or_empty or_next
  try_servers-first net name url server servers last a aaaa ea eaaaa all =
      rw
        (
          ea,
          try_servers,
          eaaaa,
          ips_of-record_of (join (labels_of name)) a,
          ips_of-record_of (join (labels_of name)) aaaa,
          all,
        )
        refl

module _ {Addr : Type 0} (parse_ip : Text → Option Ip) (parse_socket : Text → Option Addr) where
  -- Without an answer in the cache the servers are asked in turn.
  resolve-try_servers :
      (net : Network Addr) (now : ℕ) (name : Text) (policy : ResolvePolicy) (m : DnsManager)
      → parse_ip name ≡ none
      → (Cache.get now name m.cache).1 ≡ none
      → resolve parse_ip parse_socket net now name policy m
        ≡ keep now name
            (record m { cache = (Cache.get now name m.cache).0 })
            (try_servers net name (select_servers parse_socket policy m) none)
  unfolding resolve ask literal_or
  resolve-try_servers net now name policy m plain miss =
      rw (plain, resolve) (from (Cache.get now name m.cache) miss)
    where
      from :
          (hit : DnsCache Ip × Option (List Ip))
          → hit.1 ≡ none
          → ask parse_socket net now name policy m hit
            ≡ keep now name
                (record m { cache = hit.0 })
                (try_servers net name (select_servers parse_socket policy m) none)
      from (c, none) e = refl
      from (c, some ips) e = absurd cc

  resolve-get :
      (net : Network Addr) (now : ℕ) (name : Text) (policy : ResolvePolicy) (m : DnsManager)
      (ips : List Ip)
      → parse_ip name ≡ none
      → (Cache.get now name m.cache).1 ≡ some ips
      → (resolve parse_ip parse_socket net now name policy m).1 ≡ ok ips
  unfolding resolve ask literal_or
  resolve-get net now name policy m ips plain is =
      rw (plain, resolve) (from (Cache.get now name m.cache) is)
    where
      from :
          (hit : DnsCache Ip × Option (List Ip))
          → hit.1 ≡ some ips
          → (ask parse_socket net now name policy m hit).1 ≡ ok ips
      from (c, none) e = absurd cc
      from (c, some found) e = ap ok (ground arith)

  -- What the servers have answered is answered from the cache to the same name, in upper or lower case,
  -- for a minute, whatever the servers say by then and whichever policy asks. The cache is on, and
  -- neither text is itself an address.
  pub resolve-resolve :
      (net later_net : Network Addr) (now later : ℕ) (name asked : Text)
      (policy later_policy : ResolvePolicy) (m : DnsManager) (ips : List Ip)
      → m.cache.enabled ≡ true
      → parse_ip name ≡ none
      → parse_ip asked ≡ none
      → to_ascii_lowercase asked ≡ to_ascii_lowercase name
      → (Cache.get now name m.cache).1 ≡ none
      → later < now + 60_000
      → (resolve parse_ip parse_socket net now name policy m).1 ≡ ok ips
      → (resolve parse_ip parse_socket later_net later asked later_policy
          (resolve parse_ip parse_socket net now name policy m).0).1
        ≡ ok ips
  resolve-resolve net later_net now later name asked policy later_policy m ips on plain plain_too
        same miss soon e =
      let servers = select_servers parse_socket policy m in
      let r = try_servers net name servers none in
      let d : DnsManager = record m { cache = (Cache.get now name m.cache).0 } in
      let asks = resolve-try_servers net now name policy m plain miss in
      let is : r ≡ ok ips = sym (keep_answer now name d r) ∙ ap (λ x. x.1) (sym asks) ∙ e in
      let stored =
        get-keep now later name asked ips d r (get-enabled now name m.cache ∙ on) same soon
          (IsFilled-try_servers net name servers none) is in
      rw asks
        (resolve-get later_net later asked later_policy (keep now name d r).0 ips plain_too stored)

  -- Against a server that repeats the question and points back to its name: the first server of the
  -- policy decides, and the answer is the IPv4 addresses among its A answers, then the addresses among
  -- its AAAA answers, where there is one at all. The name is no address and not in the cache, each of its
  -- labels is a text of one to 191 bytes, and the numbers of the responses fit in their fields.
  pub resolve-reply :
      (net : Network Addr) (now id_a id_aaaa : ℕ) (name url : Text) (policy : ResolvePolicy)
      (m : DnsManager) (server : Server Addr) (servers : List (Text × Server Addr))
      (a aaaa : List Resource) (ip : Ip) (ips : List Ip)
      → parse_ip name ≡ none
      → (Cache.get now name m.cache).1 ≡ none
      → select_servers parse_socket policy m ≡ (url, server) ∷ servers
      → AreLabels (labels_of name)
      → AllFit a × AllFit aaaa × (length a < 2 ^ 16) × (length aaaa < 2 ^ 16)
      → net.exchange server (build_query name type_a (net.query_id server type_a))
        ≡ ok (reply name type_a id_a a)
      → net.exchange server (build_query name type_aaaa (net.query_id server type_aaaa))
        ≡ ok (reply name type_aaaa id_aaaa aaaa)
      → addresses a ++ addresses aaaa ≡ ip ∷ ips
      → (resolve parse_ip parse_socket net now name policy m).1 ≡ ok (ip ∷ ips)
  resolve-reply net now id_a id_aaaa name url policy m server servers a aaaa ip ips plain miss first
        good (fit_a, fit_aaaa, few_a, few_aaaa) ea eaaaa all =
      let asked_a = query_server-reply net server name type_a type_a id_a a good fit_a few_a ea in
      let asked_aaaa =
        query_server-reply net server name type_aaaa type_aaaa id_aaaa aaaa good fit_aaaa few_aaaa
          eaaaa in
      let d : DnsManager = record m { cache = (Cache.get now name m.cache).0 } in
      rw (resolve-try_servers net now name policy m plain miss) (
        keep_answer now name d _
        ∙ ap (λ ss. try_servers net name ss none) first
        ∙ try_servers-first net name url server servers none a aaaa asked_a asked_aaaa all)
