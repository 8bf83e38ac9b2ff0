-- ===== src/Spsc/Races.antt =====
-- The slots that the producer and the consumer are about to touch.
use sbs_server.Prelude.{ℕ, ◌+◌, ◌≤◌, ◌<◌, ◌≡◌, ◌≢◌, ap, sym, ◌∙◌, List, [], arith, length}
use sbs_server.Prelude.Masks.{ones}
use sbs_server.Spsc.{max_capacity}
use sbs_server.Spsc.Threads.{
  Producer, p_idle, p_tail, p_room, p_written, Consumer, c_idle, c_head, c_some, c_item, c_cleared,
  Turn, run, start,
}
use sbs_server.Spsc.Invariant.{ProducerOk, ConsumerOk, tail_apart}
use sbs_server.Spsc.Fifo.{made, made-Inv, run-Inv}

-- Where the producer is about to write, and the consumer about to read or to clear.
abbrev pub Writes : Producer → ℕ → Type 0
Writes (p_room item tail next) i = tail ≡ i
Writes _ i = ⊥

abbrev pub Touches : Consumer → ℕ → Type 0
Touches (c_some head) i = head ≡ i
Touches (c_item head item) i = head ≡ i
Touches _ i = ⊥

Writes-tail :
    (cap : ℕ) (p : Producer) (tail : ℕ) (slots : List ℕ) (n i : ℕ)
    → ProducerOk cap tail slots n p
    → Writes p i
    → i ≡ tail
Writes-tail cap p_idle tail slots n i ok w = elim w [ ]
Writes-tail cap (p_tail item t) tail slots n i ok w = elim w [ ]
Writes-tail cap (p_room item t next) tail slots n i ok w = sym w ∙ ok.0
Writes-tail cap (p_written item next) tail slots n i ok w = elim w [ ]

Touches-head :
    (cap : ℕ) (c : Consumer) (head : ℕ) (slots held : List ℕ) (i : ℕ)
    → ConsumerOk cap head slots held c
    → Touches c i
    → (i ≡ head) × (0 < length held)
Touches-head cap c_idle head slots held i ok t = elim t [ ]
Touches-head cap (c_head h) head slots held i ok t = elim t [ ]
Touches-head cap (c_some h) head slots held i ok t = (sym t ∙ ok.0, ok.1)
Touches-head cap (c_item h item) head slots held i ok t =
    (sym t ∙ ok.0, omega (arith, ap length ok.1))
Touches-head cap (c_cleared h item) head slots held i ok t = elim t [ ]

-- For every queue that `new` makes and every interleaving: when the producer is about to write a
-- slot while the consumer is about to read or to clear one, these are different slots.
pub no_race :
    (n : ℕ) (ts : List Turn) (i j : ℕ)
    → 1 ≤ n
    → n ≤ max_capacity
    → Writes (run (start (made n)) ts).producer i
    → Touches (run (start (made n)) ts).consumer j
    → i ≢ j
no_race n ts i j pos le writes touches e =
    let (k, size, v0) = made-Inv n pos le in
    let (held, v) = run-Inv ts k [] (start (made n)) v0 in
    let s = run (start (made n)) ts in
    let at_tail =
      Writes-tail (ones k + 1) s.producer s.mem.tail s.mem.slots (length held) i v.producing
        writes in
    let (at_head, some_held) =
      Touches-head (ones k + 1) s.consumer s.mem.head s.mem.slots held j v.consuming touches in
    tail_apart k held s v some_held (sym at_head ∙ sym e ∙ at_tail)
