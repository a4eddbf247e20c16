-- ===== src/Prelude/Bytes.antt =====
-- Byte buffers: big-endian fields and slices, and what a part reads of a concatenation.
use Prim.Native.Nat.{ℕ, zero, suc, ◌+◌, ◌*◌, ◌/◌, ◌%◌}
use mathlib.Core.Path.{◌≡◌, refl, sym, ap, ◌∙◌}
use mathlib.Core.List.{List, [], ◌∷◌, ◌++◌}
use native.Mathlib.Omega.{arith}
use network_client.Prelude.Lists.{length, get_or, take, drop}

-- `u16::from_be_bytes`
abbrev pub from_be_bytes : ℕ → ℕ → ℕ
from_be_bytes high low = high * 256 + low

-- `u16::to_be_bytes`
abbrev pub to_be_bytes : ℕ → List ℕ
to_be_bytes n = n / 256 % 256 ∷ n % 256 ∷ []

-- `u32::to_be_bytes`
abbrev pub to_be_bytes_32 : ℕ → List ℕ
to_be_bytes_32 n = n / 16777216 % 256 ∷ n / 65536 % 256 ∷ n / 256 % 256 ∷ n % 256 ∷ []

zero_add : (i : ℕ) → 0 + i ≡ i
zero_add i = omega arith

suc_add : (n i : ℕ) → suc n + i ≡ suc (n + i)
suc_add n i = omega arith

module _ {ℓ} {A : Type ℓ} where
  -- `buf[from..from + n]`
  abbrev pub slice : ℕ → ℕ → List A → List A
  slice from n buf = take n (drop from buf)

  -- What is read behind the first `m` elements.
  pub get_or-drop :
      (m : ℕ) (xs : List A) (i : ℕ) (d : A) → get_or (drop m xs) i d ≡ get_or xs (m + i) d
  get_or-drop zero xs i d = ap (λ k. get_or xs k d) (sym (zero_add i))
  get_or-drop (suc m) [] i d = refl
  get_or-drop (suc m) (x ∷ xs) i d =
      get_or-drop m xs i d ∙ ap (λ k. get_or (x ∷ xs) k d) (sym (suc_add m i))

  drop_nil : (n : ℕ) → drop {A = A} n [] ≡ []
  drop_nil zero = refl
  drop_nil (suc n) = refl

  pub drop-drop : (m n : ℕ) (xs : List A) → drop n (drop m xs) ≡ drop (m + n) xs
  drop-drop zero n xs = ap (λ k. drop k xs) (sym (zero_add n))
  drop-drop (suc m) n [] = drop_nil n ∙ sym (drop_nil (suc m + n))
  drop-drop (suc m) n (x ∷ xs) = drop-drop m n xs ∙ ap (λ k. drop k (x ∷ xs)) (sym (suc_add m n))

  pub drop-append : (p r : List A) → drop (length p) (p ++ r) ≡ r
  drop-append [] r = refl
  drop-append (x ∷ p) r = drop-append p r

  pub take-append : (p r : List A) → take (length p) (p ++ r) ≡ p
  take-append [] r = refl
  take-append (x ∷ p) r = ap (λ s. x ∷ s) (take-append p r)

  -- Where a given element is next.
  pub length-drop_next :
      (m : ℕ) (xs ys : List A) (y : A) → drop m xs ≡ y ∷ ys → length xs ≡ m + suc (length ys)
  length-drop_next zero [] ys y e = ground arith
  length-drop_next zero (x ∷ xs) ys y e = ground arith
  length-drop_next (suc m) [] ys y e = ground arith
  length-drop_next (suc m) (x ∷ xs) ys y e = omega (arith, length-drop_next m xs ys y e)

  pub get_or-drop_next : (m : ℕ) (xs ys : List A) (y d : A) → drop m xs ≡ y ∷ ys → get_or xs m d ≡ y
  get_or-drop_next zero [] ys y d e = ground arith
  get_or-drop_next zero (x ∷ xs) ys y d e = ground arith
  get_or-drop_next (suc m) [] ys y d e = ground arith
  get_or-drop_next (suc m) (x ∷ xs) ys y d e = get_or-drop_next m xs ys y d e

  pub drop_next : (m : ℕ) (xs ys : List A) (y : A) → drop m xs ≡ y ∷ ys → drop (m + 1) xs ≡ ys
  drop_next m xs ys y e = sym (drop-drop m 1 xs) ∙ ap (λ zs. drop 1 zs) e
