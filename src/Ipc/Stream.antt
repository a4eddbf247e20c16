-- ===== src/Ipc/Stream.antt =====
-- What a reader of ipc/frame.rs sees of what a writer has sent.
use network_client.Prelude.{
  ℕ, zero, suc, ◌%◌, ◌^◌, ◌≤◌, ◌<◌, ◌≡◌, refl, List, [], ◌∷◌, ◌++◌, length, take, drop,
  length-append, SvcResult, ok, arith, ◌>>=◌, ap, ◌∙◌,
}
use network_client.Ipc.Frame.{
  max_frame, to_le_bytes, from_le_bytes, read_exact, read_body, read_frame, write_frame,
}

-- As many frames as are asked for, and the rest of the stream.
unfoldable pub read_frames : ℕ → List ℕ → SvcResult (List (List ℕ) × List ℕ)
read_frames zero r = ok ([], r)
read_frames (suc n) r = read_frame r >>= λ p. read_frames n p.1 >>= λ q. ok (p.0 ∷ q.0, q.1)

unfoldable pub write_frames : List (List ℕ) → List ℕ
write_frames [] = []
write_frames (f ∷ fs) = write_frame f ++ write_frames fs

-- Every frame has a body, of at most the greatest size.
abbrev pub AllFit : List (List ℕ) → Type 0
AllFit [] = Unit
AllFit (f ∷ fs) = ((1 ≤ length f) × (length f ≤ max_frame)) × AllFit fs

append_assoc : {A : Type 0} (xs ys zs : List A) → (xs ++ ys) ++ zs ≡ xs ++ (ys ++ zs)
append_assoc [] ys zs = refl
append_assoc (x ∷ xs) ys zs = ap (λ k. x ∷ k) (append_assoc xs ys zs)

from-to_le_bytes : (n : ℕ) → n < 2 ^ 32 → from_le_bytes (to_le_bytes n) ≡ n
unfolding from_le_bytes to_le_bytes
from-to_le_bytes n h = omega arith

take-append : {A : Type 0} (xs ys : List A) → take (length xs) (xs ++ ys) ≡ xs
take-append [] [] = refl
take-append [] (y ∷ ys) = refl
take-append (x ∷ xs) ys = ap (λ k. x ∷ k) (take-append xs ys)

drop-append : {A : Type 0} (xs ys : List A) → drop (length xs) (xs ++ ys) ≡ ys
drop-append [] [] = refl
drop-append [] (y ∷ ys) = refl
drop-append (x ∷ xs) ys = drop-append xs ys

read_exact-append : (xs ys : List ℕ) → read_exact (length xs) (xs ++ ys) ≡ ok (xs, ys)
unfolding read_exact
read_exact-append xs ys = ground (arith, length-append xs ys, take-append xs ys, drop-append xs ys)

read_body-append :
    (header bytes rest : List ℕ)
    → from_le_bytes header ≡ length bytes
    → 1 ≤ length bytes
    → length bytes ≤ max_frame
    → read_body (ok (header, bytes ++ rest)) ≡ ok (bytes, rest)
unfolding read_body
read_body-append header bytes rest len one fit =
    ground (arith, len, one, fit, read_exact-append bytes rest)

read_exact-to_le_bytes :
    (n : ℕ) (r : List ℕ) → read_exact 4 (to_le_bytes n ++ r) ≡ ok (to_le_bytes n, r)
unfolding to_le_bytes
read_exact-to_le_bytes n r = read_exact-append (to_le_bytes n) r

read_frame-append :
    (n : ℕ) (r : List ℕ) → read_frame (to_le_bytes n ++ r) ≡ read_body (ok (to_le_bytes n, r))
unfolding read_frame
read_frame-append n r = ap read_body (read_exact-to_le_bytes n r)

header_value : (n : ℕ) → n ≤ max_frame → from_le_bytes (to_le_bytes (n % 2 ^ 32)) ≡ n
header_value n h = from-to_le_bytes (n % 2 ^ 32) (omega arith) ∙ (omega arith)

read-write_frame :
    (bytes rest : List ℕ)
    → 1 ≤ length bytes
    → length bytes ≤ max_frame
    → read_frame (write_frame bytes ++ rest) ≡ ok (bytes, rest)
unfolding write_frame
read-write_frame bytes rest one fit =
    let header = to_le_bytes (length bytes % 2 ^ 32) in
    ap read_frame (append_assoc header bytes rest)
    ∙ read_frame-append (length bytes % 2 ^ 32) (bytes ++ rest)
    ∙ read_body-append header bytes rest (header_value (length bytes) fit) one fit

-- Frames that have a body of at most the greatest size, written one after the other, are read back as
-- they were, in order, and what follows them in the stream is left to the next reader.
pub read_frames-write_frames :
    (fs : List (List ℕ)) (rest : List ℕ)
    → AllFit fs
    → read_frames (length fs) (write_frames fs ++ rest) ≡ ok (fs, rest)
unfolding read_frames write_frames
read_frames-write_frames [] rest h = refl
read_frames-write_frames (f ∷ fs) rest ((one, fit), h) =
    rw (append_assoc (write_frame f) (write_frames fs) rest) (
      rw (read-write_frame f (write_frames fs ++ rest) one fit)
        (rw (read_frames-write_frames fs rest h) refl))
