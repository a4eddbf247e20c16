-- ===== src/Routing/Private.antt =====
-- What the table of private networks of routing/geoip.rs means for a decision.
use network_client.Prelude.{
  ℕ, ◌≡◌, refl, Bool, true, false, Option, none, some, List, [], ◌∷◌, Text, t, text_eq_refl, arith,
}
use network_client.Config.Schema.{smart}
use network_client.Routing.BitTrie.{BitNode, Child, node, absent, ip_bits}
use network_client.Routing.BitTrie
use network_client.Routing.Rule.{Flow, v4, decision_direct}
use network_client.Routing.IpIndex.{Ip, Tries, lookup}
use network_client.Routing.IpIndex
use network_client.Routing.GeoIp.{private_name, with_private}
use network_client.Routing.Engine.{
  RoutingEngine, stages, decide, mode_default, smart_default, by_country, conclude, consider_all,
}
use network_client.Routing.Decision.{Below, Stages}

-- Below a leaf there is nothing to find.
lookup_from_leaf :
    {A : Type 0} (bits : List Bool) (l best : Option A)
    → BitTrie.lookup_from bits (node absent absent l) best ≡ best
unfolding BitTrie.lookup_from
lookup_from_leaf [] l best = refl
lookup_from_leaf (false ∷ bits) l best = refl
lookup_from_leaf (true ∷ bits) l best = refl

-- The networks of one and of two octets.
pub data IsPrivate : List ℕ → Type 0 where
  ten : (rest : List ℕ) → IsPrivate (10 ∷ rest)
  loopback : (rest : List ℕ) → IsPrivate (127 ∷ rest)
  link_local : (rest : List ℕ) → IsPrivate (169 ∷ 254 ∷ rest)
  home : (rest : List ℕ) → IsPrivate (192 ∷ 168 ∷ rest)

lookup-IsPrivate :
    (octets : List ℕ) → IsPrivate octets → lookup (v4 octets) with_private ≡ some private_name
unfolding IpIndex.lookup BitTrie.lookup BitTrie.lookup_from BitTrie.insert BitTrie.new with_private
    ip_bits
lookup-IsPrivate _ (ten rest) = lookup_from_leaf (ip_bits rest) _ _
lookup-IsPrivate _ (loopback rest) = lookup_from_leaf (ip_bits rest) _ _
lookup-IsPrivate _ (link_local rest) = lookup_from_leaf (ip_bits rest) _ _
lookup-IsPrivate _ (home rest) = lookup_from_leaf (ip_bits rest) _ _

-- Stages without a candidate leave no winner.
consider_all-Below : (cs : Stages) → Below 0 cs → consider_all cs (none, []) ≡ (none, [])
unfolding consider_all
consider_all-Below [] h = refl
consider_all-Below ((label, none) ∷ cs) h = consider_all-Below cs h
consider_all-Below ((label, some m) ∷ cs) (h, k) = absurd (omega arith)

module _ {Regex : Type 0} (is_match : Regex → Text → Bool) where
  -- In smart mode, with the built-in table of networks, a flow to an address of 10.0.0.0/8,
  -- 127.0.0.0/8, 169.254.0.0/16 or 192.168.0.0/16 that no rule matches goes direct, whatever the home
  -- country.
  pub decide-IsPrivate :
      (flow : Flow Ip) (engine : RoutingEngine Regex) (octets : List ℕ)
      → IsPrivate octets
      → flow.dst_ip ≡ some (v4 octets)
      → engine.geo ≡ with_private
      → engine.cfg.mode ≡ smart
      → Below 0 (stages is_match flow engine)
      → decide is_match flow engine ≡ decision_direct (t "private/lan")
  unfolding decide conclude mode_default smart_default by_country
  decide-IsPrivate flow engine octets private to geo mode unmatched =
      rw (consider_all-Below (stages is_match flow engine) unmatched) (
        rw mode (
          rw to
            (rw geo (rw (lookup-IsPrivate octets private) (rw (text_eq_refl private_name) refl)))))
