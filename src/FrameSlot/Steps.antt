-- ===== src/FrameSlot/Steps.antt =====
-- One call of a frame slot, and a history of calls.
use sbs_server.Prelude.{ℕ, List, [], ◌∷◌}
use sbs_server.FrameSlot.Op.{
  Op, publishes, exchanges, acquires, takes, takes_oldest, flushes, sets_release,
}
use sbs_server.FrameSlot.{
  Slot, Calls, publish, exchange, acquire, take, take_oldest, flush, set_release_func,
}

-- The frame that the call gives back, its timestamp, the slot after it, the callback's calls.
unfoldable pub step : Slot → Op → ℕ × ℕ × Slot × Calls
unfolding set_release_func
step s (publishes frame ts) = let (s', calls) = publish s frame ts in (0, 0, s', calls)
step s (exchanges frame ts) = let (out, s', calls) = exchange s frame ts in (out, 0, s', calls)
step s acquires = let (frame, ts) = acquire s in (frame, ts, s, [])
step s takes = take s
step s takes_oldest = let (frame, ts, s') = take_oldest s in (frame, ts, s', [])
step s flushes = let (s', calls) = flush s in (0, 0, s', calls)
step s (sets_release fn) = (0, 0, set_release_func s fn, [])

-- A history of calls, in the order in which they get the mutex, with what each gives back.
unfoldable pub run : Slot → List Op → List (ℕ × ℕ × Calls) × Slot
run s [] = ([], s)
run s (op ∷ ops) =
    let (frame, ts, s', calls) = step s op in
    let (seen, s'') = run s' ops in ((frame, ts, calls) ∷ seen, s'')
