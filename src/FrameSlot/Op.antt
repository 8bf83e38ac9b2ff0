-- ===== src/FrameSlot/Op.antt =====
-- The calls that the threads make of a frame slot, each under its mutex.
use sbs_server.Prelude.{ℕ, Option}

-- `publishes` stands for `sbs_frame_slot_publish(slot, frame, timestamp_us)`, and so on.
pub data Op : Type 0 where
  publishes : ℕ → ℕ → Op
  exchanges : ℕ → ℕ → Op
  acquires : Op
  takes : Op
  takes_oldest : Op
  flushes : Op
  sets_release : Option ℕ → Op
