-- ===== src/Dns/Wire/Answer.antt =====
-- `parse_response` of dns/wire.rs on the responses of a server that repeats the question and points
-- back to its name.
use network_client.Prelude.{
  ℕ, suc, ◌+◌, ◌*◌, ◌/◌, ◌%◌, ◌^◌, ◌≤◌, ◌<◌, ◌≡◌, refl, sym, ap, ◌∙◌, some, List, [], ◌∷◌, ◌++◌,
  map, length, get_or, drop, length-append, get_or-drop, drop-drop, drop-append, take-append, arith,
  Text, to_be_bytes, to_be_bytes_32, slice,
}
use network_client.Dns.Wire.{
  DnsRecord, address, field_16, read_record, read_answers, skip_questions, parse_response,
  read_name, build_query, labels_of, join, write_labels,
}
use network_client.Dns.Wire.Names.{AreLabels}
use network_client.Dns.Wire.Question.{
  to_pointer, read_name-to_pointer, read_name-write_labels, length-drop_all,
}
use mathlib.Core.List.{append_assoc, append-nil}

-- An answer as a server sends it: its type, its time to live and its data.
pub record Resource : Type 0 where
  pub rtype : ℕ
  pub ttl : ℕ
  pub rdata : List ℕ

abbrev pub Fits : Resource → Type 0
Fits a = (a.rtype < 2 ^ 16) × (a.ttl < 2 ^ 32) × (length a.rdata < 2 ^ 16)

abbrev pub AllFit : List Resource → Type 0
AllFit [] = Unit
AllFit (a ∷ rs) = Fits a × AllFit rs

-- The ten bytes behind the name of a record, of class 1.
abbrev fixed_part : Resource → List ℕ
fixed_part a =
    to_be_bytes a.rtype ++ to_be_bytes 1 ++ to_be_bytes_32 a.ttl ++ to_be_bytes (length a.rdata)

unfoldable pub write_resources : List Resource → List ℕ
write_resources [] = []
write_resources (a ∷ rs) = to_pointer 12 ++ (fixed_part a ++ (a.rdata ++ write_resources rs))

-- A response: the bit QR, one question, the answers.
unfoldable pub reply : Text → ℕ → ℕ → List Resource → List ℕ
unfolding write_resources
reply name qtype id rs =
    to_be_bytes id
    ++ to_be_bytes 0x8180
    ++ to_be_bytes 1
    ++ to_be_bytes (length rs)
    ++ to_be_bytes 0
    ++ to_be_bytes 0
    ++ (drop 12 (build_query name qtype id) ++ write_resources rs)

-- What a record of a response says of a name.
abbrev pub record_of : Text → Resource → DnsRecord
record_of name a = record {
  name = name;
  qtype = a.rtype;
  ttl = a.ttl;
  ip = address a.rtype (length a.rdata) a.rdata;
}

drop_by : (m n : ℕ) (buf p r : List ℕ) → n ≡ length p → drop m buf ≡ p ++ r → drop (m + n) buf ≡ r
drop_by m n buf p r count e =
    sym (drop-drop m n buf) ∙ ap (drop n) e ∙ ap (λ k. drop k (p ++ r)) count ∙ drop-append p r

-- A field of two bytes at `k` behind the offset.
field_16-drop : (m k : ℕ) (buf : List ℕ) → field_16 buf (m + k) ≡ field_16 (drop m buf) k
field_16-drop m k buf =
    let shift : m + k + 1 ≡ m + (k + 1) = omega arith in
    rw (get_or-drop m buf k 0, get_or-drop m buf (k + 1) 0)
      (ap (λ j. get_or buf (m + k) 0 * 256 + get_or buf j 0) shift)

read_record-fixed_part :
    (buf r : List ℕ) (name : Text) (offset : ℕ) (a : Resource)
    → Fits a
    → drop offset buf ≡ fixed_part a ++ (a.rdata ++ r)
    → read_record buf name offset ≡ some (record_of name a, offset + 10 + length a.rdata)
unfolding read_record
read_record-fixed_part buf r name offset a (low_type, low_ttl, low_length) e =
    let body = fixed_part a ++ (a.rdata ++ r) in
    let field : (k : ℕ) → field_16 buf (offset + k) ≡ field_16 body k =
      λ k. field_16-drop offset k buf ∙ ap (λ b. field_16 b k) e in
    let here : offset ≡ offset + 0 = omega arith in
    let rtype : field_16 buf offset ≡ a.rtype = ap (field_16 buf) here ∙ field 0 ∙ omega arith in
    let high_ttl : field_16 buf (offset + 4) ≡ a.ttl / 65536 = field 4 ∙ omega arith in
    let low_ttl : field_16 buf (offset + 6) ≡ a.ttl % 65536 = field 6 ∙ omega arith in
    let size : field_16 buf (offset + 8) ≡ length a.rdata = field 8 ∙ omega arith in
    let fits = length-drop_all offset buf body (omega arith) e in
    let count = length-append a.rdata r in
    let bytes : slice (offset + 10) (length a.rdata) buf ≡ a.rdata =
      rw (sym (drop-drop offset 10 buf), e) (take-append a.rdata r) in
    ground (arith, rtype, high_ttl, low_ttl, size, fits, count, bytes)

read_name-resource :
    (ls : List Text) (offset : ℕ) (buf r s : List ℕ)
    → AreLabels ls
    → drop offset buf ≡ to_pointer 12 ++ s
    → drop 12 buf ≡ write_labels ls ++ 0 ∷ r
    → read_name buf offset ≡ some (join ls, offset + 2)
read_name-resource ls offset buf r s good e target =
    read_name-to_pointer ls offset 12 buf r s good (omega arith) e target

read_answers-read_record :
    (an : ℕ) (buf : List ℕ) (offset next end : ℕ) (name : Text) (entry : DnsRecord)
    (records : List DnsRecord)
    → read_name buf offset ≡ some (name, next)
    → read_record buf name next ≡ some (entry, end)
    → read_answers (suc an) buf offset records ≡ read_answers an buf end (records ++ entry ∷ [])
unfolding read_answers
read_answers-read_record an buf offset next end name entry records e f =
    rw (e, read_answers, f) refl

-- The loop over the answers adds a record for each.
read_answers-write_resources :
    (rs : List Resource) (ls : List Text) (buf q : List ℕ) (offset : ℕ) (records : List DnsRecord)
    → AreLabels ls
    → AllFit rs
    → drop 12 buf ≡ write_labels ls ++ 0 ∷ q
    → drop offset buf ≡ write_resources rs
    → read_answers (length rs) buf offset records ≡ some (records ++ map (record_of (join ls)) rs)
unfolding read_answers write_resources
read_answers-write_resources [] ls buf q offset records good fit target e =
    ap some (sym (append-nil records))
read_answers-write_resources (a ∷ rs) ls buf q offset records good (fits, fit) target e =
    let after_name = drop_by offset 2 buf (to_pointer 12) _ refl e in
    let read =
      read_record-fixed_part buf (write_resources rs) (join ls) (offset + 2) a fits after_name in
    let after_fixed = drop_by (offset + 2) 10 buf (fixed_part a) _ refl after_name in
    let rest = drop_by (offset + 2 + 10) (length a.rdata) buf a.rdata _ refl after_fixed in
    read_answers-read_record (length rs) buf offset _ _ _ _ records
      (read_name-resource ls offset buf q _ good e target) read
    ∙ read_answers-write_resources rs ls buf q _ (records ++ record_of (join ls) a ∷ []) good fit
        target rest
    ∙ ap some (append_assoc records (record_of (join ls) a ∷ []) (map (record_of (join ls)) rs))

-- The question section of a query: the labels, the type and the class.
abbrev tail_of : ℕ → List ℕ
tail_of qtype = to_be_bytes qtype ++ to_be_bytes 1

question :
    (name : Text) (qtype id : ℕ) (r : List ℕ)
    → drop 12 (build_query name qtype id) ++ r
      ≡ write_labels (labels_of name) ++ 0 ∷ (tail_of qtype ++ r)
unfolding build_query
question name qtype id r =
    let w = write_labels (labels_of name) in
    ap (λ x. x ++ r) (append_assoc w (0 ∷ to_be_bytes qtype) (to_be_bytes 1))
    ∙ append_assoc w (0 ∷ tail_of qtype) r

skip_questions-one :
    (buf : List ℕ) (offset next : ℕ) (name : Text)
    → read_name buf offset ≡ some (name, next)
    → skip_questions 1 buf offset ≡ some (next + 4)
unfolding skip_questions
skip_questions-one buf offset next name e = rw (e, skip_questions) refl

parse_response-skip_questions :
    (buf : List ℕ) (offset : ℕ)
    → 12 ≤ length buf
    → 0x80 ≤ get_or buf 2 0
    → skip_questions (field_16 buf 4) buf 12 ≡ some offset
    → parse_response buf ≡ read_answers (field_16 buf 6) buf offset []
unfolding parse_response
parse_response-skip_questions buf offset long answers e = ground (arith, e)

-- A response to a query, with the question repeated and each answer pointing back to its name, is read
-- as one record for each answer, in their order: the name without empty labels, the type, the time to
-- live, and an address where the type and the length of the data are those of one. Each label of the
-- name is a text of one to 191 bytes, and the numbers of the response fit in their fields.
pub parse_response-reply :
    (name : Text) (qtype id : ℕ) (rs : List Resource)
    → AreLabels (labels_of name)
    → AllFit rs
    → length rs < 2 ^ 16
    → parse_response (reply name qtype id rs) ≡ some (map (record_of (join (labels_of name))) rs)
unfolding reply
parse_response-reply name qtype id rs good fit few =
    let buf = reply name qtype id rs in
    let w = write_labels (labels_of name) in
    let behind = tail_of qtype ++ write_resources rs in
    let target : drop 12 buf ≡ w ++ 0 ∷ behind = question name qtype id (write_resources rs) in
    let named = read_name-write_labels (labels_of name) 12 buf behind good target in
    let start : drop (12 + length w + 1 + 4) buf ≡ write_resources rs =
      drop_by (12 + length w + 1) 4 buf (tail_of qtype) _ refl (
        drop_by (12 + length w) 1 buf (0 ∷ []) _ refl
          (drop_by 12 (length w) buf w _ refl target)) in
    let count : field_16 buf 6 ≡ length rs = omega arith in
    let all =
      read_answers-write_resources rs (labels_of name) buf behind _ [] good fit target start in
    parse_response-skip_questions buf _ (omega arith) (omega arith)
      (skip_questions-one buf 12 _ _ named)
    ∙ ap (λ an. read_answers an buf (12 + length w + 1 + 4) []) count
    ∙ all
