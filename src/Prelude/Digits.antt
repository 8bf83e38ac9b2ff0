-- ===== src/Prelude/Digits.antt =====
-- `a | b` is 0 just if both are, and `a ^ b` just if they are the same.
use Prim.Native.Nat.{
  ℕ, zero, suc, ◌/◌, ◌%◌, ◌≤◌, ◌<◌, max, bit_or, bit_xor, differ, digits, bit_or-bitwise,
  bit_xor-bitwise,
}
use mathlib.Core.Path.{◌≡◌, refl, sym, ◌∙◌}
use native.Mathlib.Omega.{arith}

digits-or : (fuel a b : ℕ) → a ≤ fuel → digits (λ b. b) max fuel a b ≡ 0 → (a ≡ 0) × (b ≡ 0)
digits-or zero zero b h e = (refl, e)
digits-or zero (suc a) b h e = absurd (omega arith)
digits-or (suc fuel) zero b h e = (refl, e)
digits-or (suc fuel) (suc a) b h e =
    let low : max (suc a % 2) (b % 2) ≡ 0 = omega (arith, e) in
    let high = digits-or fuel (suc a / 2) (b / 2) (omega arith) (omega (arith, e)) in
    omega (arith, low, high)

pub bit_or_zero : (a b : ℕ) → bit_or a b ≡ 0 → (a ≡ 0) × (b ≡ 0)
bit_or_zero a b e = digits-or a a b (omega arith) (sym (bit_or-bitwise a b) ∙ e)

differ_bits : (x y : ℕ) → x < 2 → y < 2 → differ x y ≡ 0 → x ≡ y
differ_bits zero zero hx hy e = refl
differ_bits zero (suc y) hx hy e = absurd (omega (arith, e))
differ_bits (suc x) zero hx hy e = absurd (omega (arith, e))
differ_bits (suc x) (suc y) hx hy e = omega arith

digits-xor : (fuel a b : ℕ) → a ≤ fuel → digits (λ b. b) differ fuel a b ≡ 0 → a ≡ b
digits-xor zero zero b h e = omega (arith, e)
digits-xor zero (suc a) b h e = absurd (omega arith)
digits-xor (suc fuel) zero b h e = omega (arith, e)
digits-xor (suc fuel) (suc a) b h e =
    let low : suc a % 2 ≡ b % 2 =
      differ_bits (suc a % 2) (b % 2) (omega arith) (omega arith) (omega (arith, e)) in
    let high = digits-xor fuel (suc a / 2) (b / 2) (omega arith) (omega (arith, e)) in
    omega (arith, low, high)

pub bit_xor_zero : (a b : ℕ) → bit_xor a b ≡ 0 → a ≡ b
bit_xor_zero a b e = digits-xor a a b (omega arith) (sym (bit_xor-bitwise a b) ∙ e)

differ_self : (x : ℕ) → differ x x ≡ 0
differ_self zero = refl
differ_self (suc x) = differ_self x

digits-xor_self : (fuel a : ℕ) → a ≤ fuel → digits (λ b. b) differ fuel a a ≡ 0
digits-xor_self zero zero h = refl
digits-xor_self zero (suc a) h = absurd (omega arith)
digits-xor_self (suc fuel) zero h = refl
digits-xor_self (suc fuel) (suc a) h =
    omega (arith, digits-xor_self fuel (suc a / 2) (omega arith), differ_self (suc a % 2))

pub bit_xor_self : (a : ℕ) → bit_xor a a ≡ 0
bit_xor_self a = bit_xor-bitwise a a ∙ digits-xor_self a a (omega arith)
