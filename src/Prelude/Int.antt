-- ===== src/Prelude/Int.antt =====
-- C's signed integers: values, comparison, truncated remainder, and conversion to `int`.
use Prim.Native.Nat.{ℕ, ◌+◌, ◌-◌, ◌*◌, ◌%◌, ◌^◌, ◌<◌, compare, Ordering}
use mathlib.Core.Path.{◌≡◌, refl}
use native.Mathlib.Omega.{arith}
use sbs_server.Prelude.Tests.{if◌then◌else◌, ltb, leb, ◌==◌}

-- `negsuc n` is -(n + 1).
pub data ℤ : Type 0 where
  pos : ℕ → ℤ
  negsuc : ℕ → ℤ

-- The three-way comparison.
unfoldable pub compare_ℤ : ℤ → ℤ → Ordering
compare_ℤ (pos a) (pos b) = compare a b
compare_ℤ (pos a) (negsuc b) = Ordering.gt
compare_ℤ (negsuc a) (pos b) = Ordering.lt
compare_ℤ (negsuc a) (negsuc b) = compare b a

-- -n
abbrev pub neg : ℕ → ℤ
neg n = if n == 0 then pos 0 else negsuc (n - 1)

-- `a % m` for m > 0: the sign is that of `a`.
unfoldable pub rem_ℤ : ℤ → ℕ → ℤ
rem_ℤ (pos a) m = pos (a % m)
rem_ℤ (negsuc a) m = neg ((a + 1) % m)

-- `a + n` for n ≥ 0.
unfoldable pub add_ℕ : ℤ → ℕ → ℤ
add_ℕ (pos a) n = pos (a + n)
add_ℕ (negsuc a) n = if ltb a n then pos (n - (a + 1)) else negsuc (a - n)

-- `(int)n` for an unsigned n: two's complement of 32 bits.
unfoldable pub to_int32 : ℕ → ℤ
to_int32 n = let low = n % 2 ^ 32 in if ltb low (2 ^ 31) then pos low else negsuc (2 ^ 32 - 1 - low)

-- `(int)n` for a `long`.
unfoldable pub long_to_int32 : ℤ → ℤ
unfolding to_int32
long_to_int32 (pos n) = to_int32 n
long_to_int32 (negsuc n) = to_int32 (2 ^ 64 - 1 - n % 2 ^ 64)

-- `a * m` for m > 0.
unfoldable pub mul_ℕ : ℤ → ℕ → ℤ
mul_ℕ (pos a) m = pos (a * m)
mul_ℕ (negsuc a) m = negsuc (a * m + (m - 1))

abbrev pub pos_part : ℤ → ℕ
pos_part (pos n) = n
pos_part (negsuc n) = 0

-- `((z % 4) + 4) % 4` is 0, 1, 2 or 3.
pub rem_four :
    (z : ℤ) → let r = rem_ℤ (add_ℕ (rem_ℤ z 4) 4) 4 in (r ≡ pos (pos_part r)) × (pos_part r < 4)
unfolding rem_ℤ add_ℕ
rem_four (pos a) = (refl, omega arith)
rem_four (negsuc a) = ground arith

-- a - b
unfoldable pub sub_ℤ : ℤ → ℤ → ℤ
sub_ℤ (pos a) (pos b) = if leb b a then pos (a - b) else negsuc (b - a - 1)
sub_ℤ (pos a) (negsuc b) = pos (a + b + 1)
sub_ℤ (negsuc a) (pos b) = negsuc (a + b)
sub_ℤ (negsuc a) (negsuc b) = if leb a b then pos (b - a) else negsuc (a - b - 1)
