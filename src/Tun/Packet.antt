-- ===== src/Tun/Packet.antt =====
-- service/network-service/src/tun/packet.rs. A buffer is the list of its bytes. An index is read with 0
-- as the value out of range, where the code would panic.
use network_client.Prelude.{
  ℕ, ◌+◌, ◌*◌, ◌/◌, ◌%◌, ◌==◌, ◌||◌, Option, none, some, List, [], ◌∷◌, length, get_or, take, drop,
  ltb, if◌then◌else◌,
}
use network_client.Routing.Rule.{IpAddr, v4, v6}

pub record IpFlow : Type 0 where
  pub src : IpAddr (List ℕ)
  pub dst : IpAddr (List ℕ)
  pub protocol : ℕ  -- u8
  pub length : ℕ

-- `u16::from_be_bytes`
abbrev from_be_bytes : ℕ → ℕ → ℕ
from_be_bytes high low = high * 256 + low

-- `buf[from..from + n]`
abbrev slice : ℕ → ℕ → List ℕ → List ℕ
slice from n buf = take n (drop from buf)

unfoldable pub parse_v4 : List ℕ → Option IpFlow
parse_v4 buf =
    let ihl = get_or buf 0 0 % 16 * 4 in
    if ltb (length buf) 20
    then none
    else if ltb ihl 20 || ltb (length buf) ihl
    then none
    else some (record {
      src = v4 (get_or buf 12 0 ∷ get_or buf 13 0 ∷ get_or buf 14 0 ∷ get_or buf 15 0 ∷ []);
      dst = v4 (get_or buf 16 0 ∷ get_or buf 17 0 ∷ get_or buf 18 0 ∷ get_or buf 19 0 ∷ []);
      protocol = get_or buf 9 0;
      length = from_be_bytes (get_or buf 2 0) (get_or buf 3 0);
    })

unfoldable pub parse_v6 : List ℕ → Option IpFlow
parse_v6 buf =
    if ltb (length buf) 40
    then none
    else some (record {
      src = v6 (slice 8 16 buf);
      dst = v6 (slice 24 16 buf);
      protocol = get_or buf 6 0;
      length = 40 + from_be_bytes (get_or buf 4 0) (get_or buf 5 0);
    })

unfoldable pub parse_ip : List ℕ → Option IpFlow
unfolding parse_v4 parse_v6
parse_ip [] = none
parse_ip (byte0 ∷ rest) =
    if byte0 / 16 == 4
    then parse_v4 (byte0 ∷ rest)
    else if byte0 / 16 == 6
    then parse_v6 (byte0 ∷ rest)
    else none
