-- ===== src/Ipc/Frame.antt =====
-- service/network-service/src/ipc/frame.rs. A stream is the list of the bytes that are still to be
-- read; `read_exact` fails on a stream that ends too early.
use network_client.Prelude.{
  ℕ, ◌+◌, ◌*◌, ◌/◌, ◌%◌, ◌^◌, List, [], ◌∷◌, ◌++◌, length, take, drop, t, decimal, ltb, leb, ◌==◌,
  SvcResult, ok, err, io, other, if◌then◌else◌,
}

abbrev pub max_frame : ℕ
max_frame = 16 * 1024 * 1024

-- `u32::to_le_bytes`
unfoldable pub to_le_bytes : ℕ → List ℕ
to_le_bytes n = n % 256 ∷ n / 256 % 256 ∷ n / 65536 % 256 ∷ n / 16777216 % 256 ∷ []

-- `u32::from_le_bytes`, of the four bytes that `read_exact` has filled.
unfoldable pub from_le_bytes : List ℕ → ℕ
from_le_bytes (a ∷ b ∷ c ∷ d ∷ _) = a + b * 256 + c * 65536 + d * 16777216
from_le_bytes _ = 0

unfoldable pub read_exact : ℕ → List ℕ → SvcResult (List ℕ × List ℕ)
read_exact n r = if leb n (length r) then ok (take n r, drop n r) else err (io (t "early eof"))

-- The body, after its length.
unfoldable pub read_body : SvcResult (List ℕ × List ℕ) → SvcResult (List ℕ × List ℕ)
unfolding read_exact
read_body (err e) = err e
read_body (ok (len_buf, r)) =
    let len = from_le_bytes len_buf in
    if len == 0
    then err (other (t "empty frame"))
    else if ltb max_frame len
    then err (other (t "frame too large: " ++ decimal len))
    else read_exact len r

unfoldable pub read_frame : List ℕ → SvcResult (List ℕ × List ℕ)
unfolding read_body read_exact
read_frame r = read_body (read_exact 4 r)

-- `bytes.len() as u32` drops the high bits of the length.
unfoldable pub write_frame : List ℕ → List ℕ
unfolding to_le_bytes
write_frame bytes = to_le_bytes (length bytes % 2 ^ 32) ++ bytes
