-- ===== src/Subscription/Decoder.antt =====
-- service/network-service/src/subscription/decoder.rs.
use network_client.Prelude.{
  ℕ, not, ◌&&◌, Bool, Option, none, some, List, [], map, filter, if◌then◌else◌, Text, t, is_empty,
  starts_with, contains, trim, lines, from_utf8,
}
use network_client.Subscription.Crates.{Crates}
use network_client.Subscription.Link.{pad}

abbrev pub is_line : Text → Bool
is_line l = not (is_empty l) && not (starts_with (t "#") l)

unfoldable pub split_lines : Text → List Text
unfolding lines trim
split_lines text = filter is_line (map trim (lines text))

-- The lines of a decoded text that has a `://`, or what comes next.
unfoldable pub lines_or : Option (List ℕ) → List Text → List Text
unfolding split_lines from_utf8 contains
lines_or none next = next
lines_or (some bytes) next = elim (from_utf8 bytes) [
  | none ↦ next
  | some text ↦ if contains (t "://") text then split_lines text else next
]

unfoldable pub pad_b64 : Text → Text
unfolding pad
pad_b64 s = pad (trim s)

unfoldable pub decode_body : Crates → Text → List Text
unfolding lines_or pad_b64
decode_body k body =
    let trimmed = trim body in
    if is_empty trimmed
    then []
    else if contains (t "://") trimmed
    then split_lines trimmed
    else lines_or (k.url_safe_no_pad (pad_b64 trimmed)) (lines_or (k.standard (pad_b64 trimmed)) [])
