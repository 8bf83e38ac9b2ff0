-- ===== src/Auth/Secrets.antt =====
-- Tokens, salted hashes, and the comparison of hashes in a time that does not depend on them.
use Prim.Native.Nat.{max, bit_or, bit_xor}
use sbs_server.Prelude.{
  ℕ, zero, suc, ◌≤◌, ◌≡◌, refl, sym, Bool, true, false, ◌&&◌, Option, none, some, [], ◌∷◌, ◌++◌,
  map, if◌then◌else◌, ◌==◌, ==_iff, length, Bool-cases, inl, inr, arith,
}
use sbs_server.Prelude.Bytes.{Bytes, codes, str_eq, str_eq_iff}
use sbs_server.Prelude.Digits.{bit_or_zero, bit_xor_zero, bit_xor_self}
use sbs_server.Auth.Types.{Library, Draw}

-- The buffer of `n` zeros with the bytes that were read.
unfoldable pub filled : ℕ → Bytes → Bytes
filled zero read = []
filled (suc n) [] = 0 ∷ filled n []
filled (suc n) (b ∷ read) = b ∷ filled n read

-- From place `i` on, a number drawn for each zero.
unfoldable pub nonzero : (ℕ → ℕ) → ℕ → Bytes → Bytes
nonzero drawn i [] = []
nonzero drawn i (b ∷ buf) =
    let rest = nonzero drawn (suc i) buf in (if b == 0 then drawn i else b) ∷ rest

-- '+' becomes '-', '/' becomes '_' and '=' becomes '0'.
unfoldable pub url_safe : ℕ → ℕ
url_safe c = if c == 43 then 45 else (if c == 47 then 95 else (if c == 61 then 48 else c))

-- A loop over the rest of two strings, with 0 for the characters after an end.
unfoldable pub differences : ℕ → Bytes → Bytes → ℕ → ℕ
differences zero a b diff = diff
differences (suc n) [] [] diff = differences n [] [] (bit_or diff (bit_xor 0 0))
differences (suc n) (x ∷ a) [] diff = differences n a [] (bit_or diff (bit_xor x 0))
differences (suc n) [] (y ∷ b) diff = differences n [] b (bit_or diff (bit_xor 0 y))
differences (suc n) (x ∷ a) (y ∷ b) diff = differences n a b (bit_or diff (bit_xor x y))

unfoldable pub secure_equals : Option Bytes → Option Bytes → Bool
secure_equals none b = false
secure_equals (some a) none = false
secure_equals (some a) (some b) =
    (differences (max (length a) (length b)) a b 0 == 0) && (length a == length b)

module _ (lib : Library) where
  unfoldable pub random_token : ℕ → Draw → Bytes
  random_token bytes draw =
      map url_safe (lib.base64 (nonzero draw.int_range 0 (filled bytes draw.urandom)))

  unfoldable pub hash_secret : Bytes → Bytes → Bytes
  hash_secret salt secret = lib.sha256 (salt ++ (codes ":" ++ secret))

differences-zero :
    (n : ℕ) (a b : Bytes) (diff : ℕ)
    → length a ≡ length b
    → length a ≤ n
    → differences n a b diff ≡ 0
    → (diff ≡ 0) × (str_eq a b ≡ true)
unfolding differences str_eq
differences-zero zero [] [] diff hl hn e = (e, refl)
differences-zero zero [] (y ∷ b) diff hl hn e = absurd (omega (arith, hl))
differences-zero zero (x ∷ a) b diff hl hn e = absurd (omega (arith, hn))
differences-zero (suc n) [] [] diff hl hn e =
    let rest = differences-zero n [] [] (bit_or diff (bit_xor 0 0)) refl (omega arith) e in
    ((bit_or_zero diff (bit_xor 0 0) rest.0).0, refl)
differences-zero (suc n) [] (y ∷ b) diff hl hn e = absurd (omega (arith, hl))
differences-zero (suc n) (x ∷ a) [] diff hl hn e = absurd (omega (arith, hl))
differences-zero (suc n) (x ∷ a) (y ∷ b) diff hl hn e =
    let rest =
      differences-zero n a b (bit_or diff (bit_xor x y)) (omega (arith, hl)) (omega (arith, hn))
        e in
    let bits = bit_or_zero diff (bit_xor x y) rest.0 in
    let heads = (==_iff x y).1 (bit_xor_zero x y bits.1) in (bits.0, rw heads rest.1)

differences-same : (n : ℕ) (a : Bytes) → differences n a a 0 ≡ 0
unfolding differences
differences-same zero a = refl
differences-same (suc n) [] = differences-same n []
differences-same (suc n) (x ∷ a) = rw (bit_xor_self x) (differences-same n a)

-- The comparison that always reads both strings to their ends is the equality of the strings.
pub secure_equals-str_eq : (a b : Bytes) → secure_equals (some a) (some b) ≡ str_eq a b
unfolding secure_equals
secure_equals-str_eq a b = elim (Bool-cases (str_eq a b)) [
  | inl e ↦
      let same = (str_eq_iff a b).0 e in
      rw (e, sym same) (ground (arith, differences-same (max (length a) (length a)) a))
  | inr e ↦ ground (arith, e, differences-zero (max (length a) (length b)) a b 0)
]
