-- ===== src/Subscription/Lines.antt =====
-- What service/network-service/src/subscription/decoder.rs gives, and which bodies it cannot read.
use network_client.Prelude.{
  ℕ, zero, suc, ◌%◌, ◌≡◌, ◌≢◌, refl, sym, ap, ◌∙◌, arith, true, false, ◌==◌, none, some, List, [],
  ◌∷◌, ◌++◌, length, Text, t, trim, contains, contains-append, contains_left, as_bytes, IsString,
  from_utf8-as_bytes, is_empty, Bool-cases, inl, inr, ◌⊎◌,
}
use network_client.Subscription.Crates.{Crates}
use network_client.Subscription.Link.{pad, fill}
use network_client.Subscription.Decoder.{split_lines, lines_or, pad_b64, decode_body}
use mathlib.Core.List.{append_assoc, append-nil}

fill-append : (fuel : ℕ) (s : Text) → (r : Text) × (fill fuel s ≡ s ++ r)
unfolding fill
fill-append zero s = ([], sym (append-nil s))
fill-append (suc fuel) s = elim (Bool-cases (length (as_bytes s) % 4 == 0)) [
  | inl full ↦ ([], rw full (sym (append-nil s)))
  | inr short ↦
      let (r, e) = fill-append fuel (s ++ b'=' ∷ []) in
      (b'=' ∷ r, rw short (e ∙ append_assoc s (b'=' ∷ []) r))
]

-- A text whose length is no multiple of four gets a `=`.
pad-append : (s : Text) → length (as_bytes s) % 4 ≢ 0 → (r : Text) × (pad s ≡ s ++ b'=' ∷ r)
unfolding pad fill
pad-append s h =
    let (r, e) = fill-append 2 (s ++ b'=' ∷ []) in
    (r, rw (not_equal (length (as_bytes s) % 4) h) (e ∙ append_assoc s (b'=' ∷ []) r))
  where
    not_equal : (n : ℕ) → n ≢ 0 → (n == 0) ≡ false
    not_equal n ne = ground arith

lines_or-as_bytes :
    (text : Text) (next : List Text)
    → IsString text
    → contains (t "://") text ≡ true
    → lines_or (some (as_bytes text)) next ≡ split_lines text
unfolding lines_or
lines_or-as_bytes text next valid scheme = rw (from_utf8-as_bytes text valid, lines_or, scheme) refl

-- A list of links that comes as one base64 text is read as its lines, where the url-safe engine refuses
-- the filled-up text or decodes it as the standard engine does. The text is one block without white space
-- around it and without `://`.
pub decode_body-as_bytes :
    (k : Crates) (body text : Text)
    → IsString text
    → contains (t "://") text ≡ true
    → trim body ≡ body
    → is_empty body ≡ false
    → contains (t "://") body ≡ false
    → (k.url_safe_no_pad (pad body) ≡ none) ⊎ (k.url_safe_no_pad (pad body) ≡ some (as_bytes text))
    → k.standard (pad body) ≡ some (as_bytes text)
    → decode_body k body ≡ split_lines text
unfolding decode_body pad_b64
decode_body-as_bytes k body text valid scheme trimmed some_text no_scheme url_safe standard =
    let next : List Text = lines_or (k.standard (pad body)) [] in
    let decoded : next ≡ split_lines text =
      ap (λ o. lines_or o []) standard ∙ lines_or-as_bytes text [] valid scheme in
    let first : lines_or (k.url_safe_no_pad (pad body)) next ≡ split_lines text = elim (url_safe) [
      | inl refuses ↦ ap (λ o. lines_or o next) refuses ∙ decoded
      | inr decodes ↦ ap (λ o. lines_or o next) decodes ∙ lines_or-as_bytes text next valid scheme
    ] in
    ground (arith, trimmed, some_text, no_scheme, first)

-- The url-safe engine takes no padding, so a body in that alphabet whose length is no multiple of four is
-- never read: the decoder pads it, the url-safe engine refuses the padding and the standard one the
-- letter. The two hypotheses are what the engines document; the body is one text without white space
-- around it and without `://`.
pub decode_body_unpadded :
    (k : Crates) (body : Text)
    → ((s : Text) → contains (t "=") s ≡ true → k.url_safe_no_pad s ≡ none)
    → ((s : Text) → contains (t "-") s ≡ true → k.standard s ≡ none)
    → trim body ≡ body
    → contains (t "://") body ≡ false
    → contains (t "-") body ≡ true
    → length (as_bytes body) % 4 ≢ 0
    → decode_body k body ≡ []
unfolding decode_body pad_b64 lines_or
decode_body_unpadded k body no_padding alphabet trimmed no_scheme dash uneven =
    let (r, padded) = pad-append body uneven in
    let refused = no_padding (pad body) (rw padded (contains-append b'=' body r)) in
    let refused_too = alphabet (pad body) (rw padded (contains_left b'-' body (b'=' ∷ r) dash)) in
    ground (arith, trimmed, no_scheme, refused, refused_too)
