-- ===== src/Spsc/Threads.antt =====
-- The two threads, one memory access at a time. Each load and store of an index is an atomic with
-- acquire and release order, so that a run is an interleaving of these accesses.
use Prim.Native.Nat.{bit_and}
use sbs_server.Prelude.{
  ℕ, ◌≡◌, true, false, List, [], ◌∷◌, ◌++◌, get_or, set, if◌then◌else◌, ◌==◌, arith,
}
use sbs_server.Prelude.Words.{add32}
use sbs_server.Spsc.{Queue, push, pop}

-- Where the producer stands in `sbs_spsc_queue_push(q, item)`, with its local variables.
pub data Producer : Type 0 where
  -- Outside.
  p_idle : Producer
  -- `tail` is loaded.
  p_tail : (item tail : ℕ) → Producer
  -- `head` was loaded and differs from `next`.
  p_room : (item tail next : ℕ) → Producer
  -- The slot is written.
  p_written : (item next : ℕ) → Producer

-- Where the consumer stands in `sbs_spsc_queue_pop(q)`.
pub data Consumer : Type 0 where
  c_idle : Consumer
  -- `head` is loaded.
  c_head : (head : ℕ) → Consumer
  -- `tail` was loaded and differs from `head`.
  c_some : (head : ℕ) → Consumer
  -- The slot is read.
  c_item : (head item : ℕ) → Consumer
  -- The slot is cleared.
  c_cleared : (head item : ℕ) → Consumer

-- The memory, both threads, and two histories: the items whose push stored `tail`, and those whose
-- pop stored `head`, oldest first.
pub record System : Type 0 where
  pub mem : Queue
  pub producer : Producer
  pub consumer : Consumer
  pub pushed : List ℕ
  pub popped : List ℕ

-- The producer's next access; outside, it calls `push` with `item`.
unfoldable pub produce : ℕ → Producer → System → System
produce item p_idle s = record s { producer = p_tail item s.mem.tail }
produce _ (p_tail item tail) s =
    let next = bit_and (add32 tail 1) s.mem.mask in
    record s { producer = if next == s.mem.head then p_idle else p_room item tail next }
produce _ (p_room item tail next) s = record s {
  mem = record (s.mem) { slots = set s.mem.slots tail item };
  producer = p_written item next;
}
produce _ (p_written item next) s = record s {
  mem = record (s.mem) { tail = next };
  producer = p_idle;
  pushed = s.pushed ++ item ∷ [];
}

-- The consumer's next access; outside, it calls `pop`.
unfoldable pub consume : Consumer → System → System
consume c_idle s = record s { consumer = c_head s.mem.head }
consume (c_head head) s = record s { consumer = if head == s.mem.tail then c_idle else c_some head }
consume (c_some head) s = record s { consumer = c_item head (get_or s.mem.slots head 0) }
consume (c_item head item) s = record s {
  mem = record (s.mem) { slots = set s.mem.slots head 0 };
  consumer = c_cleared head item;
}
consume (c_cleared head item) s = record s {
  mem = record (s.mem) { head = bit_and (add32 head 1) s.mem.mask };
  consumer = c_idle;
  popped = s.popped ++ item ∷ [];
}

-- Whose turn it is; a producer that stands outside calls `push` with the item.
pub data Turn : Type 0 where
  produces : (item : ℕ) → Turn
  consumes : Turn

unfoldable pub step : System → Turn → System
step s (produces item) = produce item s.producer s
step s consumes = consume s.consumer s

-- Any interleaving of the two threads.
unfoldable pub run : System → List Turn → System
run s [] = s
run s (t ∷ ts) = run (step s t) ts

unfoldable pub start : Queue → System
start q = record { mem = q; producer = p_idle; consumer = c_idle; pushed = []; popped = [] }

-- What `sbs_spsc_queue_push` returns, alone on the queue, is what four turns of the producer do.
push_turns :
    (q : Queue) (item : ℕ)
    → let s = run (start q) (produces item ∷ produces item ∷ []) in
      let s' = run s (produces item ∷ produces item ∷ []) in
      push q item ≡ (
        elim s.producer [ p_room _ _ _ ↦ true | _ ↦ false ],
        (elim s.producer [ p_room _ _ _ ↦ s'.mem | _ ↦ s.mem ]),
      )
unfolding push run start step produce
push_turns q item = ground arith

pop_turns :
    (q : Queue)
    → let s = run (start q) (consumes ∷ consumes ∷ []) in
      let s' = run s (consumes ∷ consumes ∷ consumes ∷ []) in
      pop q ≡ elim s.consumer [ c_some _ ↦ (get_or s'.popped 0 0, s'.mem) | _ ↦ (0, s.mem) ]
unfolding pop run start step consume
pop_turns q = ground arith
