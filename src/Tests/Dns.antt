-- ===== src/Tests/Dns.antt =====
-- DNS messages and the resolver at concrete inputs.
use network_client.Prelude.{
  ℕ, ◌+◌, ◌-◌, ◌≡◌, ◌≢◌, ◌≤◌, refl, Option, none, some, Bool, true, List, [], ◌∷◌, ◌++◌, map, Text,
  t, length, ok, err, io, inl, inr, arith, SvcResult, text_eq, ◌==◌, if◌then◌else◌,
}
use network_client.Config.Schema.{DnsConfig}
use network_client.Routing.Rule.{v4}
use network_client.Routing.IpIndex.{Ip}
use network_client.Dns.Cache
use network_client.Prelude
use network_client.Dns.Wire.{
  build_query, parse_response, read_labels, rounds, start, type_a, type_aaaa, labels_of, join,
}
use network_client.Dns.Wire.Names.{AreLabels, read_name-ends}
use network_client.Dns.Wire.Answer.{Resource, AllFit, reply, record_of, parse_response-reply}
use network_client.Dns.Resolver.{udp, Network}
use network_client.Dns.Manager.{load, resolve, direct, proxy, select_servers}
use network_client.Dns.Manager.Tuned.{resolves, configures, flushes, IsTuned, run, run-IsTuned}
use network_client.Dns.Manager.Answers.{addresses, resolve-resolve, resolve-reply}

abbrev host : Text
host = t "a.io."

labels_of-host : AreLabels (labels_of host)
unfolding Prelude.split Prelude.as_bytes
labels_of-host = (
  ((inl (omega arith), tt), omega arith, omega arith),
  (((inl (omega arith), (inl (omega arith), tt)), omega arith, omega arith), tt),
)

-- A pointer to itself.
abbrev circle : List ℕ
circle = 0xc0 ∷ 0 ∷ []

read_name-ends_example : read_labels (rounds circle) circle (start 0) ≢ none
read_name-ends_example = read_name-ends circle 0

abbrev resources : List Resource
resources =
    record { rtype = 5; ttl = 300; rdata = 1 ∷ b'b' ∷ 0 ∷ [] }
    ∷ record { rtype = 1; ttl = 70_000; rdata = 1 ∷ 2 ∷ 3 ∷ 4 ∷ [] }
    ∷ []

resources-AllFit : AllFit resources
resources-AllFit =
    ((omega arith, omega arith, omega arith), ((omega arith, omega arith, omega arith), tt))

parse_response-reply_example :
    parse_response (reply host 1 9 resources)
    ≡ some (map (record_of (join (labels_of host))) resources)
parse_response-reply_example =
    parse_response-reply host 1 9 resources labels_of-host resources-AllFit (omega arith)

abbrev no_literal : Text → Option Ip
no_literal _ = none

abbrev one_socket : Text → Option Text
one_socket s = some s

abbrev configured : DnsConfig
configured = record {
  mode = t "smart";
  servers = record { kind = t "udp"; url = t "8.8.8.8"; tag = [] } ∷ [];
  cache = true;
  cache_size = 100;
}

abbrev network : Network Text
network = record {
  exchange = λ _ query. ok (
      if text_eq query (build_query host type_a 7)
      then reply host type_a 7 resources
      else reply host type_aaaa 8 []);
  query_id = λ _ qtype. if qtype == type_a then 7 else 8;
}

abbrev silent : Network Text
silent = record { exchange = λ _ _. err (io (t "unreachable")); query_id = λ _ _. 0 }

abbrev ip : Ip
ip = v4 (1 ∷ 2 ∷ 3 ∷ 4 ∷ [])

resolve-reply_example :
    (resolve no_literal one_socket network 5 host direct (load configured)).1 ≡ ok (ip ∷ [])
unfolding load Cache.new Cache.get select_servers addresses build_query Prelude.text_eq
    Prelude.lookup reply Prelude.split Prelude.as_bytes
resolve-reply_example =
    resolve-reply no_literal one_socket network 5 7 8 host (t "8.8.8.8") direct (load configured)
      (udp (t "8.8.8.8:53")) [] resources [] ip [] refl refl refl labels_of-host
      (resources-AllFit, tt, omega arith, omega arith) refl refl refl

resolve-resolve_example :
    (resolve no_literal one_socket silent 9
      (t "A.IO.")
      proxy
      (resolve no_literal one_socket network 5 host direct (load configured)).0).1
    ≡ ok (ip ∷ [])
unfolding load Cache.new Cache.get Prelude.to_ascii_lowercase Prelude.lookup
resolve-resolve_example =
    resolve-resolve no_literal one_socket network silent 5 9 host (t "A.IO.") direct proxy
      (load configured) (ip ∷ []) refl refl refl refl refl (omega arith) resolve-reply_example

run-IsTuned_example : IsTuned (
    run no_literal one_socket
      (load configured)
      (resolves network 5 host direct ∷ configures (ok tt) configured ∷ flushes ∷ []))
run-IsTuned_example =
    run-IsTuned no_literal one_socket configured
      (resolves network 5 host direct ∷ configures (ok tt) configured ∷ flushes ∷ [])
