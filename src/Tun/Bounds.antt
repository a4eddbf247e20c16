-- ===== src/Tun/Bounds.antt =====
-- What a parsed packet of tun/packet.rs says of the buffer.
use network_client.Prelude.{
  ℕ, ◌+◌, ◌*◌, ◌/◌, ◌%◌, ◌≤◌, ◌≡◌, ◌⊎◌, some, List, [], ◌∷◌, length, get_or, take, drop, arith,
  length-take, length-drop,
}
use network_client.Routing.Rule.{IpAddr, v4, v6}
use network_client.Tun.Packet.{IpFlow, parse_v4, parse_v6, parse_ip}

-- An address of four octets and one of sixteen.
abbrev pub IsV4 : IpAddr (List ℕ) → Type 0
IsV4 (v4 octets) = length octets ≡ 4
IsV4 (v6 octets) = ⊥

abbrev pub IsV6 : IpAddr (List ℕ) → Type 0
IsV6 (v4 octets) = ⊥
IsV6 (v6 octets) = length octets ≡ 16

length-slice :
    (from n : ℕ) (buf : List ℕ) → from + n ≤ length buf → length (take n (drop from buf)) ≡ n
length-slice from n buf h = ground (arith, h, length-take n (drop from buf), length-drop from buf)

parse_v4_lem :
    (buf : List ℕ) (flow : IpFlow)
    → parse_v4 buf ≡ some flow
    → (20 ≤ length buf) × (get_or buf 0 0 % 16 * 4 ≤ length buf) × IsV4 flow.src × IsV4 flow.dst
unfolding parse_v4
parse_v4_lem buf flow h = ground arith

parse_v6_lem :
    (buf : List ℕ) (flow : IpFlow)
    → parse_v6 buf ≡ some flow
    → (40 ≤ length buf) × IsV6 flow.src × IsV6 flow.dst × (40 ≤ flow.length)
unfolding parse_v6
parse_v6_lem buf flow h = ground (arith, length-slice 8 16 buf, length-slice 24 16 buf)

-- A packet is parsed only from a buffer that holds its header. Either the version is 4, the buffer has at
-- least 20 bytes and as many as the header says, and both addresses have 4 octets; or the version is 6,
-- the buffer has at least 40 bytes, both addresses have 16 octets and the length counts the header.
pub parse_ip_lem :
    (buf : List ℕ) (flow : IpFlow)
    → parse_ip buf ≡ some flow
    → ((get_or buf 0 0 / 16 ≡ 4)
        × (20 ≤ length buf)
        × (get_or buf 0 0 % 16 * 4 ≤ length buf)
        × IsV4 flow.src
        × IsV4 flow.dst)
      ⊎ ((get_or buf 0 0 / 16 ≡ 6)
          × (40 ≤ length buf)
          × IsV6 flow.src
          × IsV6 flow.dst
          × (40 ≤ flow.length))
unfolding parse_ip
parse_ip_lem [] flow h = ground arith
parse_ip_lem (byte0 ∷ rest) flow h =
    ground (arith, h, parse_v4_lem (byte0 ∷ rest) flow, parse_v6_lem (byte0 ∷ rest) flow)
