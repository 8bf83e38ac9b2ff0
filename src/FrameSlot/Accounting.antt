-- ===== src/FrameSlot/Accounting.antt =====
-- The slot's counters, and where every frame goes.
use sbs_server.Prelude.{
  ℕ, zero, suc, subst, ◌+◌, ◌%◌, ◌≤◌, ◌≡◌, refl, List, [], ◌∷◌, arith, length, length-append, ◌<◌,
  ap, sym,
}
use sbs_server.Prelude.Words.{u64_mod}
use sbs_server.FrameSlot.Op.{
  Op, publishes, exchanges, acquires, takes, takes_oldest, flushes, sets_release,
}
use sbs_server.FrameSlot.{Entry, ring_size, init, get_stats}
use sbs_server.FrameSlot.Spec
use sbs_server.FrameSlot.Spec.{Queue, split_newest, count_all}
use sbs_server.FrameSlot.Steps.{run}
use sbs_server.FrameSlot.Invariant.{view, window}
use sbs_server.FrameSlot.Refine.{run_refines, init-IsValid}

-- Every frame that was counted in was counted out, or is held; counters wrap at 2 ^ 64.
abbrev IsBalanced : Queue → Type 0
IsBalanced q =
    ((q.dropped + q.consumed + length q.held) % u64_mod ≡ q.produced) × (q.produced < u64_mod)

count_all_mod : (es : List Entry) (n : ℕ) → count_all es n % u64_mod ≡ (n + length es) % u64_mod
unfolding count_all
count_all_mod [] n = omega arith
count_all_mod (e ∷ es) n = omega (arith, count_all_mod es ((n + 1) % u64_mod))

length-split_newest : (e : Entry) (es : List Entry) → length (split_newest e es).0 ≡ length es
unfolding split_newest
length-split_newest e [] = refl
length-split_newest e (e' ∷ es) = ap suc (length-split_newest e' es)

exchange-IsBalanced :
    (q : Queue) (es : List Entry) (frame ts : ℕ)
    → q.held ≡ es
    → IsBalanced q
    → IsBalanced (Spec.exchange q frame ts).1
unfolding Spec.exchange
exchange-IsBalanced q [] frame ts e b =
    ground (arith, length-append q.held (record { frame = frame; timestamp_us = ts } ∷ []))
exchange-IsBalanced q (x ∷ xs) frame ts e b = ground (
  arith,
  length-append q.held (record { frame = frame; timestamp_us = ts } ∷ []),
  length-append xs (record { frame = frame; timestamp_us = ts } ∷ []),
)

take-IsBalanced :
    (q : Queue) (es : List Entry) → q.held ≡ es → IsBalanced q → IsBalanced (Spec.take q).2
unfolding Spec.take
take-IsBalanced q [] e b = ground arith
take-IsBalanced q (x ∷ xs) e b =
    ground (arith, length-split_newest x xs, count_all_mod (split_newest x xs).0 q.dropped)

take_oldest-IsBalanced :
    (q : Queue) (es : List Entry) → q.held ≡ es → IsBalanced q → IsBalanced (Spec.take_oldest q).2
unfolding Spec.take_oldest
take_oldest-IsBalanced q [] e b = ground arith
take_oldest-IsBalanced q (x ∷ xs) e b = ground arith

step-IsBalanced : (q : Queue) (op : Op) → IsBalanced q → IsBalanced (Spec.step q op).2
unfolding Spec.step Spec.publish Spec.flush
step-IsBalanced q (publishes frame ts) b = exchange-IsBalanced q q.held frame ts refl b
step-IsBalanced q (exchanges frame ts) b = exchange-IsBalanced q q.held frame ts refl b
step-IsBalanced q acquires b = b
step-IsBalanced q takes b = take-IsBalanced q q.held refl b
step-IsBalanced q takes_oldest b = take_oldest-IsBalanced q q.held refl b
step-IsBalanced q flushes b = ground (arith, count_all_mod q.held q.dropped)
step-IsBalanced q (sets_release fn) b = b

run-IsBalanced : (ops : List Op) (q : Queue) → IsBalanced q → IsBalanced (Spec.run q ops).1
unfolding Spec.run
run-IsBalanced [] q b = b
run-IsBalanced (op ∷ ops) q b = run-IsBalanced ops (Spec.step q op).2 (step-IsBalanced q op b)

length-window : (es : List Entry) (h n : ℕ) → length (window es h n) ≡ n
length-window es h zero = refl
length-window es h (suc n) = ap suc (length-window es ((h + 1) % ring_size) n)

-- After any history of calls of a new slot, what `sbs_frame_slot_get_stats` reports adds up: at most
-- four frames are held, and the dropped, the consumed and the held ones together are the produced
-- ones, modulo 2 ^ 64, where the counters wrap.
pub stats_balance :
    (ops : List Op)
    → let st = get_stats (run init ops).1 in
      (st.held ≤ ring_size) × ((st.dropped + st.consumed + st.held) % u64_mod ≡ st.produced)
unfolding get_stats
stats_balance ops =
    let (valid, same) = run_refines ops init-IsValid in
    let s' = (run init ops).1 in
    let balanced = run-IsBalanced ops (view init) start in
    let carried : IsBalanced (view s') = subst IsBalanced (sym (ap (λ r. r.1) same)) balanced in
    ground (arith, valid, carried, length-window s'.entries s'.head s'.count)
  where
    start : IsBalanced (view init)
    start = unfold init in omega arith
