-- ===== src/SourceSup/Backoff.antt =====
-- `schedule_restart`: the delay before the next attempt. The random numbers are arguments.
use Prim.Native.Nat.{min}
use sbs_server.Prelude.{
  ℕ, zero, suc, ◌-◌, ◌*◌, ◌/◌, ◌%◌, ◌^◌, ◌≤◌, ◌<◌, ◌≡◌, Bool, true, false, if◌then◌else◌, ltb,
  arith, if_elim,
}
use sbs_server.Prelude.Words.{add32, sub32, u32_mod}
use sbs_server.SourceSup.Types.{backoff_base_ms, backoff_max_ms}

-- The loop, with the rounds that its counter leaves.
unfoldable pub double_delay : ℕ → ℕ → ℕ
double_delay zero delay_ms = delay_ms
double_delay (suc rounds) delay_ms =
    let rest = double_delay rounds ((delay_ms * 2) % u32_mod) in
    if ltb delay_ms backoff_max_ms then rest else delay_ms

abbrev pub capped : ℕ → ℕ
capped delay_ms = if ltb backoff_max_ms delay_ms then backoff_max_ms else delay_ms

-- The delay of an attempt, counted from 1, before the jitter.
unfoldable pub plain_delay : ℕ → ℕ
unfolding double_delay
plain_delay attempts = capped (double_delay (attempts - 1) backoff_base_ms)

-- `jitter` is what `g_random_int_range(0, delay_ms / 4)` gives, `add` what `g_random_boolean` gives.
unfoldable pub jittered : ℕ → ℕ → Bool → ℕ
jittered delay_ms jitter true = add32 delay_ms jitter
jittered delay_ms jitter false = if ltb jitter delay_ms then sub32 delay_ms jitter else delay_ms

power_up : (d k : ℕ) → d * 2 * 2 ^ k ≡ d * 2 ^ suc k
power_up d k = grind arith

power_big : (d k : ℕ) → 30000 ≤ d → 30000 ≤ d * 2 ^ k
power_big d zero h = omega arith
power_big d (suc k) h = omega (arith, power_big (d * 2) k (omega arith), power_up d k)

capped-min : (d e : ℕ) → 30000 ≤ e → 30000 ≤ d → capped d ≡ min e 30000
capped-min d e h k = ground arith

double_delay-min :
    (rounds d : ℕ) → d < 60000 → capped (double_delay rounds d) ≡ min (d * 2 ^ rounds) 30000
unfolding double_delay
double_delay-min zero d q = ground arith
double_delay-min (suc rounds) d q =
    if_elim (λ r. capped r ≡ min (d * 2 ^ suc rounds) 30000) (ltb d backoff_max_ms)
      (λ small.
        let whole : (d * 2) % u32_mod ≡ d * 2 = ground arith in
        rw (whole, ← power_up d rounds) (double_delay-min rounds (d * 2) (ground arith)))
      (λ big.
        let large : 30000 ≤ d = ground arith in
        capped-min d (d * 2 ^ suc rounds) (power_big d (suc rounds) large) large)

-- The delay of an attempt before the jitter is one second, doubled with each attempt after the first,
-- but at most thirty seconds: neither the cap in the loop nor the word's width changes it.
pub plain_delay-min :
    (attempts : ℕ)
    → plain_delay (suc attempts) ≡ min (backoff_base_ms * 2 ^ attempts) backoff_max_ms
unfolding plain_delay
plain_delay-min attempts =
    rw (minus attempts) (double_delay-min attempts backoff_base_ms (omega arith))
  where
    minus : (n : ℕ) → suc n - 1 ≡ n
    minus n = omega arith

capped-le : (d : ℕ) → capped d ≤ 30000
capped-le d = ground arith

jittered-near :
    (d jitter : ℕ) (add : Bool)
    → d ≤ 30000
    → jitter < d / 4
    → (3 * d < 4 * jittered d jitter add) × (4 * jittered d jitter add < 5 * d)
unfolding jittered
jittered-near d jitter true small h = ground arith
jittered-near d jitter false small h = ground arith

-- The jitter is less than a quarter: the delay is more than three quarters and less than five quarters
-- of the plain one.
pub jittered-plain_delay :
    (attempts jitter : ℕ) (add : Bool)
    → jitter < plain_delay attempts / 4
    → let delay = jittered (plain_delay attempts) jitter add in
      (3 * plain_delay attempts < 4 * delay) × (4 * delay < 5 * plain_delay attempts)
unfolding plain_delay
jittered-plain_delay attempts jitter add h =
    jittered-near (plain_delay attempts) jitter add
      (capped-le (double_delay (attempts - 1) backoff_base_ms)) h
