-- ===== src/FrameSlot/Spec.antt =====
-- What a frame slot promises: a queue of at most four frames, oldest first, with counters.
use sbs_server.Prelude.{ℕ, Option, none, some, List, [], ◌∷◌, ◌++◌, if◌then◌else◌, ◌==◌, length}
use sbs_server.Prelude.Words.{add64}
use sbs_server.FrameSlot.Op.{
  Op, publishes, exchanges, acquires, takes, takes_oldest, flushes, sets_release,
}
use sbs_server.FrameSlot.{Entry, Calls, release_frame, ring_size}

pub record Queue : Type 0 where
  pub held : List Entry
  pub release_fn : Option ℕ
  pub produced : ℕ
  pub dropped : ℕ
  pub consumed : ℕ

-- The callback's calls for frames that go, oldest first.
unfoldable pub release_all : Option ℕ → List Entry → Calls
release_all fn [] = []
release_all fn (e ∷ es) = release_frame fn e.frame ++ release_all fn es

-- A counter after one step for each frame that goes.
unfoldable pub count_all : List Entry → ℕ → ℕ
count_all [] n = n
count_all (e ∷ es) n = count_all es (add64 n 1)

-- All but the newest, and the newest.
unfoldable pub split_newest : Entry → List Entry → List Entry × Entry
split_newest e [] = ([], e)
split_newest e (e' ∷ es) = let (older, newest) = split_newest e' es in (e ∷ older, newest)

-- At a full queue the oldest frame goes: to the callback, or back to the caller if there is none.
unfoldable pub make_room : Queue → List Entry → ℕ × Queue × Calls
make_room q [] = (0, q, [])
make_room q (e ∷ es) =
    let q' : Queue = record q { held = es; dropped = add64 q.dropped 1 } in
    if length (e ∷ es) == ring_size
    then elim q.release_fn [ none ↦ (e.frame, q', []) | some fn ↦ (0, q', (fn, e.frame) ∷ []) ]
    else (0, q, [])

unfoldable pub exchange : Queue → ℕ → ℕ → ℕ × Queue × Calls
unfolding make_room
exchange q frame timestamp_us =
    let counted : Queue = record q { produced = add64 q.produced 1 } in
    let (out, q', calls) = make_room counted q.held in
    let e : Entry = record { frame = frame; timestamp_us = timestamp_us } in
    if frame == 0 then (0, q, []) else (out, record q' { held = q'.held ++ e ∷ [] }, calls)

unfoldable pub acquire : List Entry → ℕ × ℕ
acquire [] = (0, 0)
acquire (e ∷ es) = let (older, newest) = split_newest e es in (newest.frame, newest.timestamp_us)

take_held : Queue → List Entry → ℕ × ℕ × Queue × Calls
take_held q [] = (0, 0, q, [])
take_held q (e ∷ es) =
    let (older, newest) = split_newest e es in
    (
      newest.frame,
      newest.timestamp_us,
      record q { held = []; dropped = count_all older q.dropped; consumed = add64 q.consumed 1 },
      release_all q.release_fn older,
    )

unfoldable pub take : Queue → ℕ × ℕ × Queue × Calls
unfolding take_held split_newest count_all release_all
take q = take_held q q.held

take_oldest_held : Queue → List Entry → ℕ × ℕ × Queue
take_oldest_held q [] = (0, 0, q)
take_oldest_held q (e ∷ es) =
    (e.frame, e.timestamp_us, record q { held = es; consumed = add64 q.consumed 1 })

unfoldable pub take_oldest : Queue → ℕ × ℕ × Queue
unfolding take_oldest_held
take_oldest q = take_oldest_held q q.held

unfoldable pub flush : Queue → Queue × Calls
unfolding count_all release_all
flush q =
    (record q { held = []; dropped = count_all q.held q.dropped }, release_all q.release_fn q.held)

unfoldable pub publish : Queue → ℕ → ℕ → Queue × Calls
publish q frame timestamp_us =
    let (out, q', calls) = exchange q frame timestamp_us in
    (q', calls ++ release_frame q'.release_fn out)

-- A client's call, and its effect on the queue: the frame and timestamp that it gives back, the
-- queue after it, and the calls of the callback.
unfoldable pub step : Queue → Op → ℕ × ℕ × Queue × Calls
step q (publishes frame ts) = let (q', calls) = publish q frame ts in (0, 0, q', calls)
step q (exchanges frame ts) = let (out, q', calls) = exchange q frame ts in (out, 0, q', calls)
step q acquires = let (frame, ts) = acquire q.held in (frame, ts, q, [])
step q takes = take q
step q takes_oldest = let (frame, ts, q') = take_oldest q in (frame, ts, q', [])
step q flushes = let (q', calls) = flush q in (0, 0, q', calls)
step q (sets_release fn) = (0, 0, record q { release_fn = fn }, [])

-- What a client sees of a history: for each call the frame, the timestamp and the callback's calls.
unfoldable pub run : Queue → List Op → List (ℕ × ℕ × Calls) × Queue
run q [] = ([], q)
run q (op ∷ ops) =
    let (frame, ts, q', calls) = step q op in
    let (seen, q'') = run q' ops in ((frame, ts, calls) ∷ seen, q'')
