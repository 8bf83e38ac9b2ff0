-- ===== src/Spsc.antt =====
-- src/common/spsc_queue.c: a ring of pointers between one producer and one consumer thread.
-- A pointer is its address, 0 for NULL.
pub mod Size
pub mod Threads
pub mod Ring
pub mod Invariant
pub mod Fifo
pub mod Races
pub mod Alone
mod Tests
use Prim.Native.Nat.{bit_and, bit_or}
use sbs_server.Prelude.{
  ℕ, zero, suc, ◌/◌, ◌^◌, Bool, true, false, Option, none, some, List, [], ◌∷◌, ◌||◌, get_or, set,
  if◌then◌else◌, ◌==◌, ltb,
}
use sbs_server.Prelude.Words.{add32, sub32}

-- SBS_SPSC_MAX_CAPACITY
abbrev pub max_capacity : ℕ
max_capacity = 4096

-- `sbs_spsc_queue_t`. The two indices are atomics.
pub record Queue : Type 0 where
  pub slots : List ℕ
  pub capacity : ℕ
  pub mask : ℕ
  pub head : ℕ
  pub tail : ℕ

-- `next_pow2`: `v |= v >> k` at k = 1, 2, 4, 8, 16.
pub next_pow2 : ℕ → ℕ
next_pow2 v =
    let v0 = sub32 v 1 in
    let v1 = bit_or v0 (v0 / 2 ^ 1) in
    let v2 = bit_or v1 (v1 / 2 ^ 2) in
    let v3 = bit_or v2 (v2 / 2 ^ 4) in
    let v4 = bit_or v3 (v3 / 2 ^ 8) in let v5 = bit_or v4 (v4 / 2 ^ 16) in add32 v5 1

-- `calloc(n, sizeof(void *))`
pub null_slots : ℕ → List ℕ
null_slots zero = []
null_slots (suc n) = 0 ∷ null_slots n

-- `sbs_spsc_queue_new`; the Booleans say whether the two allocations succeed.
pub new : Bool → Bool → ℕ → Option Queue
unfolding next_pow2
new queue_allocated slots_allocated requested =
    let capacity = next_pow2 requested in
    if requested == 0 || ltb max_capacity requested
    then none
    else if queue_allocated
    then (if slots_allocated
        then some (record {
          slots = null_slots capacity;
          capacity = capacity;
          mask = sub32 capacity 1;
          head = 0;
          tail = 0;
        })
        else none)
    else none

-- `sbs_spsc_queue_push`, run with no other thread between its accesses.
pub push : Queue → ℕ → Bool × Queue
push q item =
    let next = bit_and (add32 q.tail 1) q.mask in
    if next == q.head
    then (false, q)
    else (true, record q { slots = set q.slots q.tail item; tail = next })

-- `sbs_spsc_queue_pop`, likewise; NULL for an empty queue.
pub pop : Queue → ℕ × Queue
pop q = if q.head == q.tail then (0, q) else (
  get_or q.slots q.head 0,
  record q { slots = set q.slots q.head 0; head = bit_and (add32 q.head 1) q.mask },
)

-- `sbs_spsc_queue_count`
pub count : Queue → ℕ
count q = bit_and (sub32 q.tail q.head) q.mask

-- `sbs_spsc_queue_capacity`: how many items fit.
pub usable_capacity : Queue → ℕ
usable_capacity q = sub32 q.capacity 1
