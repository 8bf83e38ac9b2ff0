-- ===== src/Spsc/Fifo.antt =====
-- What the two threads can rely on, whatever way their accesses interleave.
use native.Mathlib.Nat.{mod-eq_of_lt}
use sbs_server.Prelude.{
  ℕ, zero, suc, ◌+◌, ◌-◌, ◌*◌, ◌≤◌, ◌<◌, ◌≡◌, refl, ap, sym, ◌∙◌, List, [], ◌∷◌, ◌++◌, arith,
  length, true, some,
}
use sbs_server.Prelude.Masks.{ones}
use sbs_server.Spsc.{Queue, max_capacity, new, next_pow2, null_slots, usable_capacity}
use sbs_server.Spsc.Size.{next_pow2_lem}
use sbs_server.Spsc.Threads.{System, Turn, produces, consumes, step, run, start}
use sbs_server.Spsc.Invariant.{Inv, produce-Inv, consume-Inv}

length-null_slots : (n : ℕ) → length (null_slots n) ≡ n
unfolding null_slots
length-null_slots zero = refl
length-null_slots (suc n) = ap suc (length-null_slots n)

-- The queue that `sbs_spsc_queue_new` makes.
abbrev pub made : ℕ → Queue
made n = record {
  slots = null_slots (next_pow2 n);
  capacity = next_pow2 n;
  mask = next_pow2 n - 1;
  head = 0;
  tail = 0;
}

-- For the sizes 1 to 4096 `new` makes a queue if both allocations succeed. Its size is rounded up
-- to less than twice the size asked for, and one place of it stays empty: the capacity that the queue
-- reports can be one less than the size asked for, and is never smaller than that.
pub new_lem :
    (n : ℕ)
    → 1 ≤ n
    → n ≤ max_capacity
    → (new true true n ≡ some (made n))
      × (n ≤ usable_capacity (made n) + 1)
      × (usable_capacity (made n) + 1 < 2 * n)
unfolding new usable_capacity
new_lem n pos le = ground (arith, next_pow2_lem n pos le)

pub made-Inv :
    (n : ℕ)
    → 1 ≤ n
    → n ≤ max_capacity
    → (k : ℕ) × (next_pow2 n ≡ ones k + 1) × Inv k [] (start (made n))
unfolding start
made-Inv n pos le =
    let (k, size, small, _, _) = next_pow2_lem n pos le in
    (
      k,
      size,
      record {
        exponent = small;
        mask = omega (arith, size);
        size = length-null_slots (next_pow2 n) ∙ size;
        head_in = omega arith;
        tail_at = sym (mod-eq_of_lt (omega arith));
        room = omega arith;
        history = refl;
        producing = tt;
        consuming = tt;
      },
    )

pub run-Inv :
    (ts : List Turn) (k : ℕ) (held : List ℕ) (s : System)
    → Inv k held s
    → (held' : List ℕ) × Inv k held' (run s ts)
unfolding run step
run-Inv [] k held s v = (held, v)
run-Inv (produces item ∷ ts) k held s v =
    run-Inv ts k _ _ (produce-Inv s.producer item k held s refl v)
run-Inv (consumes ∷ ts) k held s v = run-Inv ts k _ _ (consume-Inv s.consumer k held s refl v)

next_pow2_bound : (n : ℕ) → 1 ≤ n → n ≤ max_capacity → next_pow2 n ≤ 8192
next_pow2_bound n pos le = omega (arith, (next_pow2_lem n pos le).4)

-- For every queue that `new` makes and every interleaving of the memory accesses of one producer
-- and one consumer: the items popped are the first of those pushed, in the order of the pushes,
-- each once; and those not yet popped are never more than the capacity that the queue reports.
pub fifo :
    (n : ℕ) (ts : List Turn)
    → 1 ≤ n
    → n ≤ max_capacity
    → let s = run (start (made n)) ts in
      (held : List ℕ) × (s.pushed ≡ s.popped ++ held) × (length held ≤ usable_capacity (made n))
unfolding usable_capacity
fifo n ts pos le =
    let (k, size, v0) = made-Inv n pos le in
    let (held, v) = run-Inv ts k [] (start (made n)) v0 in
    (held, v.history, omega (arith, size, v.room, next_pow2_bound n pos le))
