-- ===== src/FrameSlot/Refine.antt =====
-- The operations of a valid slot, next to those of the bounded queue of frames.
use sbs_server.Prelude.{ℕ, ◌≡◌, refl, arith, List, [], ◌∷◌}
use sbs_server.FrameSlot.Op.{
  Op, publishes, exchanges, acquires, takes, takes_oldest, flushes, sets_release,
}
use sbs_server.FrameSlot.Steps.{step, run}
use sbs_server.FrameSlot.{
  Slot, init, publish, set_release_func, exchange, acquire, take, take_oldest, flush,
}
use sbs_server.FrameSlot.Spec
use sbs_server.FrameSlot.Shape.{AtEveryShape, shape_cases}
use sbs_server.FrameSlot.Invariant.{IsValid, view}

abbrev ExchangeRefines : ℕ → ℕ → Slot → Type 0
ExchangeRefines frame ts s =
    let (out, s', calls) = exchange s frame ts in
    (out, view s', calls) ≡ Spec.exchange (view s) frame ts

exchange_shapes : (frame ts : ℕ) → AtEveryShape (ExchangeRefines frame ts)
unfolding exchange Spec.exchange
exchange_shapes frame ts h c e0 e1 e2 e3 fn p d k = ground arith

abbrev AcquireRefines : Slot → Type 0
AcquireRefines s = acquire s ≡ Spec.acquire (view s).held

acquire_shapes : AtEveryShape AcquireRefines
unfolding acquire Spec.acquire Spec.split_newest
acquire_shapes h c e0 e1 e2 e3 fn p d k = ground arith

abbrev TakeRefines : Slot → Type 0
TakeRefines s =
    let (frame, ts, s', calls) = take s in (frame, ts, view s', calls) ≡ Spec.take (view s)

take_shapes : AtEveryShape TakeRefines
unfolding take Spec.take
take_shapes h c e0 e1 e2 e3 fn p d k = ground arith

abbrev TakeOldestRefines : Slot → Type 0
TakeOldestRefines s =
    let (frame, ts, s') = take_oldest s in (frame, ts, view s') ≡ Spec.take_oldest (view s)

take_oldest_shapes : AtEveryShape TakeOldestRefines
unfolding take_oldest Spec.take_oldest
take_oldest_shapes h c e0 e1 e2 e3 fn p d k = ground arith

abbrev FlushRefines : Slot → Type 0
FlushRefines s = let (s', calls) = flush s in (view s', calls) ≡ Spec.flush (view s)

flush_shapes : AtEveryShape FlushRefines
unfolding flush Spec.flush
flush_shapes h c e0 e1 e2 e3 fn p d k = ground arith

abbrev PublishRefines : ℕ → ℕ → Slot → Type 0
PublishRefines frame ts s =
    let (s', calls) = publish s frame ts in (view s', calls) ≡ Spec.publish (view s) frame ts

publish_shapes : (frame ts : ℕ) → AtEveryShape (PublishRefines frame ts)
unfolding publish Spec.publish Spec.exchange
publish_shapes frame ts h c e0 e1 e2 e3 fn p d k = ground arith

abbrev StepRefines : Op → Slot → Type 0
StepRefines op s =
    let (frame, ts, s', calls) = step s op in (frame, ts, view s', calls) ≡ Spec.step (view s) op

step_shapes : (op : Op) → AtEveryShape (StepRefines op)
unfolding step Spec.step set_release_func
step_shapes (publishes frame ts) h c e0 e1 e2 e3 fn p d k =
    cc (publish_shapes frame ts h c e0 e1 e2 e3 fn p d k)
step_shapes (exchanges frame ts) h c e0 e1 e2 e3 fn p d k =
    cc (exchange_shapes frame ts h c e0 e1 e2 e3 fn p d k)
step_shapes acquires h c e0 e1 e2 e3 fn p d k = cc (acquire_shapes h c e0 e1 e2 e3 fn p d k)
step_shapes takes h c e0 e1 e2 e3 fn p d k = take_shapes h c e0 e1 e2 e3 fn p d k
step_shapes takes_oldest h c e0 e1 e2 e3 fn p d k = cc (take_oldest_shapes h c e0 e1 e2 e3 fn p d k)
step_shapes flushes h c e0 e1 e2 e3 fn p d k = cc (flush_shapes h c e0 e1 e2 e3 fn p d k)
step_shapes (sets_release fn') h c e0 e1 e2 e3 fn p d k = refl

-- In a slot that meets the invariant every call, `sbs_frame_slot_publish`, `exchange`, `acquire`,
-- `take`, `take_oldest`, `flush` or `set_release_func`, gives back the frame and the timestamp that
-- the bounded queue gives back, makes the same calls of the release callback in the same order, and
-- leaves the slot standing for the queue's next state, counters included.
pub step_refines : {s : Slot} (op : Op) → IsValid s → StepRefines op s
step_refines {s} op v = shape_cases (StepRefines op) (step_shapes op) s v.size v.head_in v.count_in

abbrev StepKeeps : Op → Slot → Type 0
StepKeeps op s = IsValid s → IsValid (step s op).2

-- Every call keeps the invariant of a slot.
step_keeps : (op : Op) → AtEveryShape (StepKeeps op)
unfolding step exchange acquire take take_oldest flush publish set_release_func
step_keeps (publishes frame ts) h c e0 e1 e2 e3 fn p d k v = ground arith
step_keeps (exchanges frame ts) h c e0 e1 e2 e3 fn p d k v = ground arith
step_keeps acquires h c e0 e1 e2 e3 fn p d k v = v
step_keeps takes h c e0 e1 e2 e3 fn p d k v = ground arith
step_keeps takes_oldest h c e0 e1 e2 e3 fn p d k v = ground arith
step_keeps flushes h c e0 e1 e2 e3 fn p d k v = ground arith
step_keeps (sets_release fn') h c e0 e1 e2 e3 fn p d k v = ground arith

pub step-IsValid : {s : Slot} (op : Op) → IsValid s → IsValid (step s op).2
step-IsValid {s} op v = shape_cases (StepKeeps op) (step_keeps op) s v.size v.head_in v.count_in v

pub init-IsValid : IsValid init
unfolding init
init-IsValid = omega arith

-- For every slot that meets the invariant and every history of calls: the slot meets the invariant
-- after the history, each call gives back the frame, the timestamp and the callback's calls that the
-- bounded queue gives for the same history, and the slot stands for the queue's last state.
pub run_refines :
    (ops : List Op) {s : Slot}
    → IsValid s
    → let (seen, s') = run s ops in IsValid s' × ((seen, view s') ≡ Spec.run (view s) ops)
unfolding run Spec.run
run_refines [] v = (v, refl)
run_refines (op ∷ ops) {s} v =
    let (valid, same) = run_refines ops (step-IsValid op v) in (valid, cc (step_refines op v, same))
