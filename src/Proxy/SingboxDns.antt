-- ===== src/Proxy/SingboxDns.antt =====
-- The servers of DNS in a configuration of service/network-service/src/proxy/config_builder.rs.
pub mod Declared
use network_client.Prelude.{
  ℕ, zero, suc, ◌+◌, ◌-◌, ◌^◌, ◌==◌, Bool, true, false, not, Option, none, some, List, [], ◌∷◌,
  ◌++◌, map, find, if◌then◌else◌, Text, t, text_eq, is_empty, starts_with, trim_matches,
  trim_end_matches, decimal, parse_unsigned, Json, Members, get_member, json_object, json_array,
  as_text, SvcResult, ok, err, config_invalid, ◌>>=◌,
}
use network_client.Config.Schema.{DnsConfig, DnsServer}

abbrev pub str : Text → Json
str s = Json.string s

-- `continue` where the kind is unknown.
unfoldable pub address_of : DnsServer → Option Text
unfolding text_eq trim_end_matches
address_of s =
    if text_eq s.kind (t "udp")
    then some (trim_end_matches (t ":53") s.url)
    else if text_eq s.kind (t "doh")
    then some s.url
    else none

unfoldable pub dns_tag : ℕ → DnsServer → Text
unfolding text_eq decimal
dns_tag i s =
    let tag = if text_eq s.tag (t "proxy") then t "dns-remote" else t "dns-direct" in
    if i == 0 then tag else tag ++ t "-" ++ decimal i

unfoldable pub dns_entry : ℕ → DnsServer → Text → Json
unfolding dns_tag
dns_entry i s address = json_object (
    (t "tag", str (dns_tag i s))
    ∷ (t "address", str address)
    ∷ (if text_eq s.tag (t "proxy") then (t "detour", str (t "node")) ∷ [] else []))

-- The entries from the number `i` on.
unfoldable pub dns_entries : ℕ → List DnsServer → List Json
unfolding dns_entry address_of
dns_entries i [] = []
dns_entries i (s ∷ ss) =
    let rest = dns_entries (i + 1) ss in
    elim (address_of s) [ none ↦ rest | some address ↦ dns_entry i s address ∷ rest ]

unfoldable pub or_default_server : List Json → List Json
or_default_server [] =
    json_object ((t "tag", str (t "dns-direct")) ∷ (t "address", str (t "223.5.5.5")) ∷ []) ∷ []
or_default_server (s ∷ ss) = s ∷ ss

-- `s["tag"].as_str()`
abbrev pub tag_of : Json → Option Text
tag_of s = elim (get_member (t "tag") s) [ none ↦ none | some v ↦ as_text v ]

is_direct : Json → Bool
unfolding get_member text_eq
is_direct s = elim (tag_of s) [ none ↦ false | some tag ↦ text_eq tag (t "dns-direct") ]

tag_or : Json → Text
unfolding get_member
tag_or s = elim (tag_of s) [ none ↦ t "dns-direct" | some tag ↦ tag ]

first_or : Option Json → List Json → Text
unfolding tag_or
first_or (some s) servers = tag_or s
first_or none [] = t "dns-direct"
first_or none (s ∷ servers) = tag_or s

unfoldable pub final_tag : List Json → Text
unfolding first_or is_direct
final_tag servers = first_or (find is_direct servers) servers

unfoldable pub dns_block : DnsConfig → Json
unfolding dns_entries or_default_server final_tag
dns_block dns =
    let servers = or_default_server (dns_entries 0 dns.servers) in
    json_object (
      (t "servers", json_array servers)
      ∷ (t "final", str (final_tag servers))
      ∷ (t "strategy", str (t "prefer_ipv4"))
      ∷ (t "independent_cache", Json.boolean true)
      ∷ [])
