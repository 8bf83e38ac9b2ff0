-- ===== src/FrameSlot/Invariant.antt =====
-- The representation invariant of a slot, and the queue that a slot stands for.
use sbs_server.Prelude.{
  ℕ, zero, suc, ◌+◌, ◌-◌, ◌%◌, ◌≤◌, ◌<◌, ◌≡◌, List, [], ◌∷◌, get_or, length, All,
}
use sbs_server.FrameSlot.{Slot, Entry, vacant_entry, ring_size}
use sbs_server.FrameSlot.Spec.{Queue}

-- The `n` entries from index `h` on, round the end of the ring.
abbrev pub window : List Entry → ℕ → ℕ → List Entry
window es h zero = []
window es h (suc n) = get_or es h vacant_entry ∷ window es ((h + 1) % ring_size) n

-- The held entries, oldest first.
abbrev pub contents : Slot → List Entry
contents s = window s.entries s.head s.count

-- The entries that hold no frame.
abbrev pub spare : Slot → List Entry
spare s = window s.entries ((s.head + s.count) % ring_size) (ring_size - s.count)

pub record IsValid (s : Slot) : Type 0 where
  pub size : length s.entries ≡ ring_size
  pub head_in : s.head < ring_size
  pub count_in : s.count ≤ ring_size
  pub live : All (λ e. 0 < e.frame) (contents s)
  pub cleared : All (λ e. e.frame ≡ 0) (spare s)

abbrev pub view : Slot → Queue
view s = record {
  held = contents s;
  release_fn = s.release_fn;
  produced = s.produced;
  dropped = s.dropped;
  consumed = s.consumed;
}
