-- ===== src/Spsc/Tests.antt =====
-- Concrete runs of the queue.
use sbs_server.Prelude.{
  ℕ, ◌≤◌, ◌≡◌, ◌≢◌, refl, List, [], ◌∷◌, ◌++◌, arith, length, true, if◌then◌else◌, ◌==◌,
}
use sbs_server.Prelude.Masks.{ones}
use sbs_server.Spsc.{Queue, next_pow2, null_slots, push, pop, count, usable_capacity}
use sbs_server.Spsc.Threads.{Turn, produces, consumes, run, start, step, produce, consume}
use sbs_server.Spsc.Fifo.{made, fifo}
use sbs_server.Spsc.Races.{no_race}
use sbs_server.Spsc.Alone.{Holds, sequential}

-- The sizes of tests/test_spsc.c: 16 and 10 both give 15 places.
sizes_rounded : (usable_capacity (made 16) ≡ 15) × (usable_capacity (made 10) ≡ 15)
unfolding usable_capacity next_pow2
sizes_rounded = (refl, refl)

-- Two pushes with a pop between their accesses.
abbrev turns : List Turn
turns =
    produces 7
    ∷ produces 7
    ∷ produces 7
    ∷ consumes
    ∷ produces 7
    ∷ consumes
    ∷ produces 8
    ∷ consumes
    ∷ produces 8
    ∷ consumes
    ∷ produces 8
    ∷ consumes
    ∷ produces 8
    ∷ []

small_interleaving :
    ((run (start (made 4)) turns).pushed ≡ 7 ∷ 8 ∷ [])
    × ((run (start (made 4)) turns).popped ≡ 7 ∷ [])
unfolding run step produce consume start next_pow2 null_slots
small_interleaving = (refl, refl)

-- The producer is about to write, the consumer to read.
abbrev racing : List Turn
racing =
    produces 7
    ∷ produces 7
    ∷ produces 7
    ∷ produces 7
    ∷ produces 8
    ∷ produces 8
    ∷ consumes
    ∷ consumes
    ∷ []

abbrev small : Queue
small = made 4

fifo_example :
    let s = run (start (made 4)) turns in
    (held : List ℕ) × (s.pushed ≡ s.popped ++ held) × (length held ≤ usable_capacity (made 4))
fifo_example = fifo 4 turns (omega arith) (omega arith)

no_race_example : ◌≢◌ {A = ℕ} 1 0
unfolding run step produce consume start next_pow2 null_slots
no_race_example = no_race 4 racing 1 0 (omega arith) (omega arith) refl refl

-- Three places, the items 5 and 6 in the last two.
abbrev two_items : Queue
two_items = record { slots = 0 ∷ 0 ∷ 5 ∷ 6 ∷ []; capacity = 4; mask = 3; head = 2; tail = 0 }

two_items-Holds : Holds 2 (5 ∷ 6 ∷ []) two_items
two_items-Holds = (
  [],
  record {
    exponent = omega arith;
    mask = refl;
    size = refl;
    head_in = omega arith;
    tail_at = refl;
    room = omega arith;
    history = refl;
    producing = tt;
    consuming = omega arith;
  },
)

sequential_example :
    (count two_items ≡ 2)
    × ((push two_items 9).0 ≡ true)
    × Holds 2 (5 ∷ 6 ∷ 9 ∷ []) (push two_items 9).1
    × ((if 2 == ones 2 then (push two_items 9).1 else two_items) ≡ two_items)
    × ((pop two_items).0 ≡ 5)
    × Holds 2 (6 ∷ []) (pop two_items).1
    × ((if 2 == 0 then (pop two_items).1 else two_items) ≡ two_items)
sequential_example = sequential 2 (5 ∷ 6 ∷ []) two_items 9 two_items-Holds
