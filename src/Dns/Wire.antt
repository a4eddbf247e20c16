-- ===== src/Dns/Wire.antt =====
-- service/network-service/src/dns/wire.rs. A buffer is the list of its bytes; an index is read only
-- after its test of the bounds, with 0 as the value out of range.
pub mod Names
pub mod Question
pub mod Answer
use network_client.Prelude.{
  ℕ, zero, suc, ◌+◌, ◌*◌, ◌/◌, ◌%◌, ◌==◌, ◌&&◌, ◌||◌, Bool, true, false, not, Option, none, some,
  List, [], ◌∷◌, ◌++◌, length, get_or, filter, ltb, leb, if◌then◌else◌, Text, is_empty, split,
  from_be_bytes, to_be_bytes, slice, as_bytes, from_utf8_lossy,
}
use network_client.Routing.Rule.{IpAddr, v4, v6}

abbrev pub type_a : ℕ
type_a = 1

abbrev pub type_aaaa : ℕ
type_aaaa = 28

pub record DnsRecord : Type 0 where
  pub name : Text
  pub qtype : ℕ  -- u16
  pub ttl : ℕ  -- u32
  pub ip : Option (IpAddr (List ℕ))

-- `labels.join(".")`
unfoldable pub join : List Text → Text
join [] = []
join (l ∷ []) = l
join (l ∷ m ∷ ls) = l ++ b'.' ∷ join (m ∷ ls)

-- `name.split('.').filter(|l| !l.is_empty())`
abbrev pub labels_of : Text → List Text
labels_of name = filter (λ l. not (is_empty l)) (split b'.' name)

-- `label.len() as u8` drops the high bits of the length.
unfoldable pub write_labels : List Text → List ℕ
write_labels [] = []
write_labels (l ∷ ls) = (length (as_bytes l) % 256) ∷ as_bytes l ++ write_labels ls

unfoldable pub build_query : Text → ℕ → ℕ → List ℕ
unfolding write_labels
build_query name qtype id =
    to_be_bytes id
    ++ to_be_bytes 0x0100
    ++ to_be_bytes 1
    ++ to_be_bytes 0
    ++ to_be_bytes 0
    ++ to_be_bytes 0
    ++ write_labels (labels_of name)
    ++ 0 ∷ to_be_bytes qtype
    ++ to_be_bytes 1

-- The variables of the loop in `read_name`.
pub record Cursor : Type 0 where
  pub offset : ℕ
  pub labels : List Text
  pub jumped : Bool
  pub next_after : ℕ
  pub hops : ℕ

pub data Step : Type 0 where
  finished : Option (List Text × ℕ) → Step
  again : Cursor → Step

-- `if !jumped { next_after = to; }`
abbrev pub after : Cursor → ℕ → ℕ
after c to = if c.jumped then c.next_after else to

-- A byte with both top bits set starts a pointer of 14 bits.
abbrev pub is_pointer : ℕ → Bool
is_pointer len = len / 64 == 3

abbrev pub pointer : List ℕ → ℕ → ℕ
pointer buf offset = from_be_bytes (get_or buf offset 0 % 64) (get_or buf (offset + 1) 0)

unfoldable pub follow : List ℕ → Cursor → Step
follow buf c =
    if leb (length buf) (c.offset + 1) || ltb 16 (c.hops + 1)
    then finished none
    else again (record c {
      offset = pointer buf c.offset;
      jumped = true;
      next_after = after c (c.offset + 2);
      hops = c.hops + 1;
    })

unfoldable pub take_label : List ℕ → Cursor → Step
take_label buf c =
    let len = get_or buf c.offset 0 in
    let end = c.offset + 1 + len in
    if ltb (length buf) end
    then finished none
    else again (record c {
      offset = end;
      labels = c.labels ++ from_utf8_lossy (slice (c.offset + 1) len buf) ∷ [];
      next_after = after c end;
    })

-- One round of the loop.
unfoldable pub round : List ℕ → Cursor → Step
unfolding follow take_label
round buf c =
    if leb (length buf) c.offset
    then finished none
    else if get_or buf c.offset 0 == 0
    then finished (some (c.labels, after c (c.offset + 1)))
    else if is_pointer (get_or buf c.offset 0)
    then follow buf c
    else take_label buf c

-- `none` says that the fuel was not enough.
unfoldable pub read_labels : ℕ → List ℕ → Cursor → Option (Option (List Text × ℕ))
unfolding round
read_labels zero buf c = none
read_labels (suc fuel) buf c = elim (round buf c) [
  | finished r ↦ some r
  | again d ↦ read_labels fuel buf d
]

abbrev pub start : ℕ → Cursor
start offset = record {
  offset = offset;
  labels = [];
  jumped = false;
  next_after = offset;
  hops = 0;
}

-- Between two of the 16 jumps at most, each label takes a byte at least.
abbrev pub rounds : List ℕ → ℕ
rounds buf = suc (16 + 17 * length buf)

unfoldable pub read_name : List ℕ → ℕ → Option (Text × ℕ)
unfolding read_labels join
read_name buf offset = elim (read_labels (rounds buf) buf (start offset)) [
  | none ↦ none
  | some none ↦ none
  | some (some (labels, next)) ↦ some (join labels, next)
]

-- The loop over the `qd` questions.
unfoldable pub skip_questions : ℕ → List ℕ → ℕ → Option ℕ
unfolding read_name
skip_questions zero buf offset = some offset
skip_questions (suc qd) buf offset = elim (read_name buf offset) [
  | none ↦ none
  | some (_, next) ↦ skip_questions qd buf (next + 4)
]

unfoldable pub address : ℕ → ℕ → List ℕ → Option (IpAddr (List ℕ))
address qtype rdlen rdata =
    if qtype == type_a && rdlen == 4
    then some (v4 rdata)
    else if qtype == type_aaaa && rdlen == 16
    then some (v6 rdata)
    else none

abbrev pub field_16 : List ℕ → ℕ → ℕ
field_16 buf offset = from_be_bytes (get_or buf offset 0) (get_or buf (offset + 1) 0)

abbrev pub field_32 : List ℕ → ℕ → ℕ
field_32 buf offset = field_16 buf offset * 65536 + field_16 buf (offset + 2)

-- The record behind a name, `none` where the loop breaks off, and the offset after the record.
unfoldable pub read_record : List ℕ → Text → ℕ → Option (DnsRecord × ℕ)
unfolding address
read_record buf name offset =
    let rdlen = field_16 buf (offset + 8) in
    if ltb (length buf) (offset + 10) || ltb (length buf) (offset + 10 + rdlen)
    then none
    else some (
      record {
        name = name;
        qtype = field_16 buf offset;
        ttl = field_32 buf (offset + 4);
        ip = address (field_16 buf offset) rdlen (slice (offset + 10) rdlen buf);
      },
      offset + 10 + rdlen,
    )

-- The loop over the `an` answers.
unfoldable pub read_answers : ℕ → List ℕ → ℕ → List DnsRecord → Option (List DnsRecord)
unfolding read_record read_name
read_answers zero buf offset records = some records
read_answers (suc an) buf offset records = elim (read_name buf offset) [
  | none ↦ none
  | some (name, next) ↦ elim (read_record buf name next) [
    | none ↦ some records
    | some (entry, end) ↦ read_answers an buf end (records ++ entry ∷ [])
  ]
]

-- `buf[2] & 0x80 == 0`: the bit QR is not set.
unfoldable pub parse_response : List ℕ → Option (List DnsRecord)
unfolding skip_questions read_answers
parse_response buf =
    let questions = skip_questions (field_16 buf 4) buf 12 in
    if ltb (length buf) 12
    then none
    else if ltb (get_or buf 2 0) 0x80
    then none
    else elim questions [ none ↦ none | some offset ↦ read_answers (field_16 buf 6) buf offset [] ]
