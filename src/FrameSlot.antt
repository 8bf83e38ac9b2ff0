-- ===== src/FrameSlot.antt =====
-- src/server/engine/frame_slot.c: the ring of at most four frames between a source worker's
-- reader and the compositor. A frame is an address, 0 for NULL. Each function that takes the
-- slot's mutex is one step; the frames it hands to the release callback are returned in order.
pub mod Op
pub mod Steps
pub mod Spec
pub mod Shape
pub mod Invariant
pub mod Refine
pub mod Accounting
pub mod Frames
pub mod Release
mod Tests
use sbs_server.Prelude.{
  ℕ, zero, suc, ◌+◌, ◌%◌, Bool, true, Option, none, some, List, [], ◌∷◌, ◌++◌, get_or, set,
  if◌then◌else◌, ◌==◌,
}
use sbs_server.Prelude.Words.{add32, sub32, add64}

abbrev pub ring_size : ℕ
ring_size = 4

-- One of the slot's `entries`.
pub record Entry : Type 0 where
  pub frame : ℕ
  pub timestamp_us : ℕ

abbrev pub vacant_entry : Entry
vacant_entry = record { frame = 0; timestamp_us = 0 }

-- `sbs_frame_slot_t` without its mutex. The callback and its `user_data` are one handle.
pub record Slot : Type 0 where
  pub entries : List Entry
  pub head : ℕ
  pub count : ℕ
  pub release_fn : Option ℕ
  pub produced : ℕ
  pub dropped : ℕ
  pub consumed : ℕ

-- Calls of the release callback: the callback's handle and the frame.
abbrev pub Calls : Type 0
Calls = List (ℕ × ℕ)

-- `release_frame`
unfoldable pub release_frame : Option ℕ → ℕ → Calls
release_frame release frame =
    if frame == 0 then [] else elim release [ none ↦ [] | some fn ↦ (fn, frame) ∷ [] ]

abbrev pub entry_at : Slot → ℕ → Entry
entry_at s i = get_or s.entries i vacant_entry

-- `clear_entry`
pub clear_entry : Slot → ℕ → Bool → Slot × Calls
clear_entry s idx count_drop =
    let frame = (entry_at s idx).frame in
    let cleared : Slot = record s { entries = set s.entries idx vacant_entry } in
    (
      if count_drop then record cleared { dropped = add64 s.dropped 1 } else cleared,
      release_frame s.release_fn frame,
    )

-- `sbs_frame_slot_init`
pub init : Slot
init = record {
  entries = vacant_entry ∷ vacant_entry ∷ vacant_entry ∷ vacant_entry ∷ [];
  head = 0;
  count = 0;
  release_fn = none;
  produced = 0;
  dropped = 0;
  consumed = 0;
}

-- `sbs_frame_slot_set_release_func`
pub set_release_func : Slot → Option ℕ → Slot
set_release_func s fn = record s { release_fn = fn }

-- The branch of `exchange` at a full ring: the oldest frame goes out.
pub evict : Slot → ℕ × Slot × Calls
evict s =
    let oldest = (entry_at s s.head).frame in
    let s' : Slot = record s {
      entries = set s.entries s.head vacant_entry;
      head = add32 s.head 1 % ring_size;
      count = sub32 s.count 1;
      dropped = add64 s.dropped 1;
    } in
    elim s.release_fn [ none ↦ (oldest, s', []) | some fn ↦ (0, s', (fn, oldest) ∷ []) ]

-- The write of `exchange`, after room is made.
pub append_entry : Slot → ℕ → ℕ → Slot
append_entry s frame timestamp_us = record s {
  entries =
      set s.entries (add32 s.head s.count % ring_size)
        (record { frame = frame; timestamp_us = timestamp_us });
  count = add32 s.count 1;
}

-- `sbs_frame_slot_exchange`
pub exchange : Slot → ℕ → ℕ → ℕ × Slot × Calls
unfolding evict append_entry
exchange s frame timestamp_us =
    let counted : Slot = record s { produced = add64 s.produced 1 } in
    let (out, s', calls) = (if s.count == ring_size then evict counted else (0, counted, [])) in
    if frame == 0 then (0, s, []) else (out, append_entry s' frame timestamp_us, calls)

-- `sbs_frame_slot_publish`: what `exchange` gives back is released outside the lock.
pub publish : Slot → ℕ → ℕ → Slot × Calls
unfolding exchange
publish s frame timestamp_us =
    let (out, s', calls) = exchange s frame timestamp_us in
    (s', calls ++ release_frame s'.release_fn out)

-- `sbs_frame_slot_acquire`: the newest frame, which stays in the slot, and its timestamp.
pub acquire : Slot → ℕ × ℕ
acquire s =
    let newest = entry_at s (sub32 (add32 s.head s.count) 1 % ring_size) in
    if s.count == 0 then (0, 0) else (newest.frame, newest.timestamp_us)

-- The loop of `take`, `n` up from its current value for so many rounds.
pub clear_older : ℕ → ℕ → ℕ → Slot → Slot × Calls
unfolding clear_entry
clear_older zero n newest s = (s, [])
clear_older (suc rounds) n newest s =
    let idx = add32 s.head n % ring_size in
    let (s', calls) = (if idx == newest then (s, []) else clear_entry s idx true) in
    let (s'', calls') = clear_older rounds (n + 1) newest s' in (s'', calls ++ calls')

-- `sbs_frame_slot_take`: the newest frame; the older ones are dropped.
pub take : Slot → ℕ × ℕ × Slot × Calls
unfolding clear_older
take s =
    let newest = sub32 (add32 s.head s.count) 1 % ring_size in
    let (s', calls) = clear_older s.count 0 newest s in
    let e = entry_at s' newest in
    if s.count == 0 then (0, 0, s, []) else (
      e.frame,
      e.timestamp_us,
      record s' {
        entries = set s'.entries newest vacant_entry;
        head = 0;
        count = 0;
        consumed = add64 s'.consumed 1;
      },
      calls,
    )

-- `sbs_frame_slot_take_oldest`
pub take_oldest : Slot → ℕ × ℕ × Slot
take_oldest s =
    let e = entry_at s s.head in
    let count = sub32 s.count 1 in
    let head = add32 s.head 1 % ring_size in
    if s.count == 0 then (0, 0, s) else (
      e.frame,
      e.timestamp_us,
      record s {
        entries = set s.entries s.head vacant_entry;
        head = if count == 0 then 0 else head;
        count = count;
        consumed = add64 s.consumed 1;
      },
    )

-- The loop of `flush`.
pub clear_all : ℕ → ℕ → Slot → Slot × Calls
unfolding clear_entry
clear_all zero n s = (s, [])
clear_all (suc rounds) n s =
    let (s', calls) = clear_entry s (add32 s.head n % ring_size) true in
    let (s'', calls') = clear_all rounds (n + 1) s' in (s'', calls ++ calls')

-- `sbs_frame_slot_flush`
pub flush : Slot → Slot × Calls
unfolding clear_all
flush s = let (s', calls) = clear_all s.count 0 s in (record s' { head = 0; count = 0 }, calls)

-- `sbs_frame_slot_stats_t` and `sbs_frame_slot_get_stats`
pub record Stats : Type 0 where
  pub produced : ℕ
  pub dropped : ℕ
  pub consumed : ℕ
  pub held : ℕ

pub get_stats : Slot → Stats
get_stats s = record {
  produced = s.produced;
  dropped = s.dropped;
  consumed = s.consumed;
  held = s.count;
}
