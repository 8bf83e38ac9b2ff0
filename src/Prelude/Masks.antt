-- ===== src/Prelude/Masks.antt =====
-- `x & (2^k - 1)` is the remainder by `2^k`.
use Prim.Native.Nat.{
  ℕ, zero, suc, ◌+◌, ◌*◌, ◌/◌, ◌%◌, ◌≤◌, ◌<◌, min, bit_and, digits, bit_and-bitwise,
}
use mathlib.Core.Path.{◌≡◌, ap}
use native.Mathlib.Nat.{zero-mod, mod-eq_of_lt, mod-lt, div-add-mod, mul-add-mod_self_left}
use native.Mathlib.Omega.{arith}

-- `k` ones: `2^k - 1`.
abbrev pub ones : ℕ → ℕ
ones zero = 0
ones (suc k) = 2 * ones k + 1

-- The remainder by `2 m` from the one of the half by `m`.
mod-double : (x m : ℕ) → 0 < m → (x / 2 % m) * 2 + x % 2 ≡ x % (2 * m)
mod-double x m pos =
    let r = (x / 2 % m) * 2 + x % 2 in
    let small : x / 2 % m < m = mod-lt (x / 2) pos in
    let split : x ≡ (2 * m) * (x / 2 / m) + r = grind (arith, div-add-mod (x / 2) m) in
    omega (
      arith,
      ap (λ (t : ℕ). t % (2 * m)) split,
      mul-add-mod_self_left (2 * m) (x / 2 / m) r,
      mod-eq_of_lt {n = r} {m = 2 * m} (omega arith),
    )

-- One digit, the mask's other digits named.
digits-suc :
    (fuel a b rest : ℕ)
    → b / 2 ≡ rest
    → digits (λ b. zero) min (suc fuel) (suc a) b
      ≡ digits (λ b. zero) min fuel (suc a / 2) rest * 2 + min (suc a % 2) (b % 2)
digits-suc fuel a b rest e =
    ap (λ t. digits (λ b. zero) min fuel (suc a / 2) t * 2 + min (suc a % 2) (b % 2)) e

digits-ones : (fuel k a : ℕ) → a ≤ fuel → digits (λ b. zero) min fuel a (ones k) ≡ a % (ones k + 1)
digits-ones zero k zero h = omega (arith, zero-mod (ones k + 1))
digits-ones zero k (suc a) h = absurd (omega arith)
digits-ones (suc fuel) k zero h = omega (arith, zero-mod (ones k + 1))
digits-ones (suc fuel) zero (suc a) h =
    omega (arith, digits-ones fuel zero (suc a / 2) (omega arith))
digits-ones (suc fuel) (suc k) (suc a) h = omega (
  arith,
  ap (λ (t : ℕ). suc a % t) width,
  digits-suc fuel a (ones (suc k)) (ones k) (omega arith),
  digits-ones fuel k (suc a / 2) (omega arith),
  mod-double (suc a) (ones k + 1) (omega arith),
)
  where
    width : ones (suc k) + 1 ≡ 2 * (ones k + 1)
    width = omega arith

pub bit_and-ones : (k a : ℕ) → bit_and a (ones k) ≡ a % (ones k + 1)
bit_and-ones k a = omega (arith, bit_and-bitwise a (ones k), digits-ones a k a (omega arith))
