-- ===== src/Spsc/Size.antt =====
-- The size that `sbs_spsc_queue_new` gives a queue.
use sbs_server.Prelude.{
  ℕ, zero, suc, ◌+◌, ◌*◌, ◌≤◌, ◌<◌, ◌≡◌, refl, Bool, true, ◌&&◌, arith, ltb, leb, ◌==◌,
  if◌then◌else◌,
}
use sbs_server.Prelude.Masks.{ones}
use sbs_server.Spsc.{next_pow2, max_capacity}

-- The least `k`, of the `fuel` first, with `v ≤ 2^k`.
exponent : ℕ → ℕ → ℕ → ℕ
exponent zero k v = k
exponent (suc fuel) k v =
    let rest = exponent fuel (k + 1) v in if leb v (ones k + 1) then k else rest

-- `next_pow2` gives a power of two from `v` on, less than twice `v`, of exponent at most 12.
rounds_up : ℕ → Bool
rounds_up v =
    let k = exponent 12 0 v in
    (next_pow2 v == ones k + 1) && (leb k 12 && (leb v (next_pow2 v) && ltb (next_pow2 v) (2 * v)))

all_from_one : ℕ → (ℕ → Bool) → Bool
all_from_one zero p = true
all_from_one (suc n) p = p (suc n) && all_from_one n p

all_from_one_sound :
    (n : ℕ) (p : ℕ → Bool) (x : ℕ) → all_from_one n p ≡ true → 1 ≤ x → x ≤ n → p x ≡ true
unfolding all_from_one
all_from_one_sound zero p x h pos le = absurd (omega arith)
all_from_one_sound (suc n) p x h pos le = ground (arith, all_from_one_sound n p x)

rounds_up_table : all_from_one max_capacity rounds_up ≡ true
unfolding all_from_one rounds_up exponent next_pow2
rounds_up_table = refl

pub next_pow2_lem :
    (v : ℕ)
    → 1 ≤ v
    → v ≤ max_capacity
    → (k : ℕ) × (next_pow2 v ≡ ones k + 1) × (k ≤ 12) × (v ≤ next_pow2 v) × (next_pow2 v < 2 * v)
unfolding rounds_up
next_pow2_lem v pos le =
    let row = all_from_one_sound max_capacity rounds_up v rounds_up_table pos le in
    let k = exponent 12 0 v in (k, ground arith, ground arith, ground arith, ground arith)
