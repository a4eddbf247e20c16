-- ===== src/Routing/GeoIp.antt =====
-- `GeoIp` of service/network-service/src/routing/geoip.rs. The networks of its tables are given by
-- their octets. `IpAddr::from_str` is a parameter, and a directory is what reading it returns.
use network_client.Prelude.{
  ℕ, ◌^◌, ◌-◌, Bool, false, ◌||◌, Option, none, some, List, [], ◌∷◌, ◌++◌, ◌⊎◌, inl, inr, Text, t,
  text_eq, is_empty, trim, split, split_once, starts_with, to_ascii_uppercase, parse_unsigned, ltb,
  if◌then◌else◌,
}
use network_client.Routing.BitTrie
use network_client.Routing.BitTrie.{ip_bits}
use network_client.Routing.Rule.{v4, v6}
use network_client.Routing.IpIndex.{Ip, Tries}

abbrev pub private_name : Text
private_name = t "PRIVATE"

abbrev private_v4 : List (List ℕ × ℕ)
private_v4 =
    (0 ∷ 0 ∷ 0 ∷ 0 ∷ [], 8)
    ∷ (10 ∷ 0 ∷ 0 ∷ 0 ∷ [], 8)
    ∷ (100 ∷ 64 ∷ 0 ∷ 0 ∷ [], 10)
    ∷ (127 ∷ 0 ∷ 0 ∷ 0 ∷ [], 8)
    ∷ (169 ∷ 254 ∷ 0 ∷ 0 ∷ [], 16)
    ∷ (172 ∷ 16 ∷ 0 ∷ 0 ∷ [], 12)
    ∷ (192 ∷ 168 ∷ 0 ∷ 0 ∷ [], 16)
    ∷ (224 ∷ 0 ∷ 0 ∷ 0 ∷ [], 4)
    ∷ []

abbrev zeros6 : List ℕ
zeros6 = 0 ∷ 0 ∷ 0 ∷ 0 ∷ 0 ∷ 0 ∷ []

abbrev private_v6 : List (List ℕ × ℕ)
private_v6 =
    (zeros6 ++ (zeros6 ++ 0 ∷ 0 ∷ 0 ∷ 1 ∷ []), 128)
    ∷ (0xfc ∷ 0 ∷ (zeros6 ++ (zeros6 ++ 0 ∷ 0 ∷ [])), 7)
    ∷ (0xfe ∷ 0x80 ∷ (zeros6 ++ (zeros6 ++ 0 ∷ 0 ∷ [])), 10)
    ∷ []

unfoldable pub insert_all : List (List ℕ × ℕ) → BitTrie.BitNode Text → BitTrie.BitNode Text
insert_all [] trie = trie
insert_all ((net, prefix) ∷ nets) trie =
    insert_all nets (BitTrie.insert (ip_bits net) prefix private_name trie)

unfoldable pub with_private : Tries Text
unfolding insert_all
with_private = record {
  trie4 = insert_all private_v4 BitTrie.new;
  trie6 = insert_all private_v6 BitTrie.new;
}

unfoldable pub insert_ip : Text → ℕ → Text → Tries Text → Option Ip → Text ⊎ Tries Text
insert_ip cidr prefix name geo (some (v4 ip)) =
    if ltb 32 prefix
    then inl (t "bad v4 prefix " ++ cidr)
    else inr (record geo { trie4 = BitTrie.insert (ip_bits ip) prefix name geo.trie4 })
insert_ip cidr prefix name geo (some (v6 ip)) =
    if ltb 128 prefix
    then inl (t "bad v6 prefix " ++ cidr)
    else inr (record geo { trie6 = BitTrie.insert (ip_bits ip) prefix name geo.trie6 })
insert_ip cidr prefix name geo none = inl (t "invalid IP address syntax")

-- The file of a directory: its name's two parts, and its text if it can be read.
pub record File : Type 0 where
  pub stem : Option Text
  pub extension : Option Text
  pub body : Option Text

abbrev is_txt : Option Text → Bool
is_txt e = elim e [ none ↦ false | some x ↦ text_eq x (t "txt") ]

module _ (parse_ip : Text → Option Ip) where
  unfoldable pub insert_cidr : Text → Text → Tries Text → Text ⊎ Tries Text
  unfolding insert_ip
  insert_cidr cidr name geo = elim (split_once 47 cidr) [
    | none ↦ insert_ip cidr 128 name geo (parse_ip cidr)
    | some parts ↦ elim (parse_unsigned (2 ^ 64 - 1) parts.1) [
      | none ↦ inl (t "bad prefix " ++ cidr)
      | some prefix ↦ insert_ip cidr prefix name geo (parse_ip parts.0)
    ]
  ]

  -- The loop over the lines. A line that is refused is skipped; a line's end is trimmed with it.
  unfoldable pub load_lines : Text → List Text → Tries Text → Tries Text
  unfolding insert_cidr
  load_lines name [] geo = geo
  load_lines name (line ∷ lines) geo =
      let skipped = load_lines name lines geo in
      if is_empty (trim line) || starts_with (t "#") (trim line)
      then skipped
      else elim (insert_cidr (trim line) name geo) [
        | inl message ↦ skipped
        | inr next ↦ load_lines name lines next
      ]

  load_body : Option Text → Option Text → Tries Text → Tries Text
  unfolding load_lines
  load_body (some stem) (some body) geo = load_lines (to_ascii_uppercase stem) (split 10 body) geo
  load_body (some stem) none geo = geo
  load_body none body geo = geo

  unfoldable pub load_files : List File → Tries Text → Tries Text
  unfolding load_body
  load_files [] geo = geo
  load_files (f ∷ fs) geo =
      let skipped = load_files fs geo in
      if is_txt f.extension then load_files fs (load_body f.stem f.body geo) else skipped

  -- A directory that cannot be read changes nothing.
  unfoldable pub load_dir : Option (List File) → Tries Text → Tries Text
  unfolding load_files
  load_dir none geo = geo
  load_dir (some files) geo = load_files files geo
