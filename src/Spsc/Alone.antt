-- ===== src/Spsc/Alone.antt =====
-- A queue on which no call is under way: `push`, `pop` and `count` against a bounded FIFO.
use Prim.Native.Nat.{bit_and, ◌∣◌}
use Prim.Native.Nat.add
use native.Mathlib.Nat.{
  mod-eq_of_lt, mod-eq-sub-mod, mod-mod_of_dvd, dvd-mul_right, mul-add-mod_self_left, mod-lt,
  add-zero,
}
use sbs_server.Prelude.{
  ℕ, zero, suc, ◌+◌, ◌-◌, ◌*◌, ◌%◌, ◌≤◌, ◌<◌, ◌≡◌, refl, ap, ◌∙◌, subst, List, [], ◌∷◌, ◌++◌, arith,
  not, Bool-cases, inl, inr, get_or, length, false, if◌then◌else◌, ◌==◌, dec_lt,
}
use sbs_server.Prelude.Words.{sub32, add32, u32_mod}
use sbs_server.Prelude.Masks.{ones, bit_and-ones}
use sbs_server.Spsc.{Queue, push, pop, count}
use sbs_server.Spsc.Ring.{mod_apart, mod_full, mod_last}
use sbs_server.Spsc.Threads.{
  System, Producer, Consumer, p_idle, c_idle, p_room, p_written, c_item, c_cleared, produce,
  consume,
}
use sbs_server.Spsc.Invariant.{Inv, produce-Inv, consume-Inv, added, taken, rest, masked_next}

-- A queue of size `2^k` at rest that holds these items, oldest first.
abbrev pub Holds : ℕ → List ℕ → Queue → Type 0
Holds k held q =
    (popped : List ℕ) × Inv k held (record {
      mem = q;
      producer = p_idle;
      consumer = c_idle;
      pushed = popped ++ held;
      popped = popped;
    })

ones_split : (k j : ℕ) → (ones k + 1) * (ones j + 1) ≡ ones (k + j) + 1
ones_split zero j = omega (arith, ap ones (add.zero j))
ones_split (suc k) j = omega (arith, ones_split k j, ap ones (add.suc k j))

word_split : (k : ℕ) → k ≤ 12 → (ones k + 1) * (ones (32 - k) + 1) ≡ u32_mod
word_split k le = ones_split k (32 - k) ∙ ap (λ t. ones t + 1) same
  where
    same : k + (32 - k) ≡ 32
    same = omega arith

-- The distance from a place to the one `n` on, taken modulo 2 ^ 32 and then masked.
distance :
    (k h n : ℕ)
    → k ≤ 12
    → h < ones k + 1
    → n < ones k + 1
    → bit_and (sub32 ((h + n) % (ones k + 1)) h) (ones k) ≡ n
distance k h n le hh nn =
    bit_and-ones k (sub32 ((h + n) % (ones k + 1)) h)
    ∙ masked ((h + n) % (ones k + 1) + u32_mod - h)
    ∙ elim (dec_lt (h + n) (ones k + 1)) [
      | yes below ↦ around (ones (32 - k) + 1) (omega (arith, word, mod-eq_of_lt below))
      | no beyond ↦ around (ones (32 - k)) (
          omega (
            arith,
            word,
            mod-eq-sub-mod {n = h + n} {m = ones k + 1} (omega arith),
            mod-eq_of_lt {n = h + n - (ones k + 1)} {m = ones k + 1} (omega arith),
          ))
    ]
  where
    word : (ones k + 1) * (ones (32 - k) + 1) ≡ u32_mod
    word = word_split k le

    masked : (x : ℕ) → x % u32_mod % (ones k + 1) ≡ x % (ones k + 1)
    masked x =
        mod-mod_of_dvd (ones k + 1) x
          (subst (λ t. (ones k + 1) ∣ t) word (dvd-mul_right (ones k + 1) (ones (32 - k) + 1)))

    around :
        (m : ℕ)
        → (h + n) % (ones k + 1) + u32_mod - h ≡ (ones k + 1) * m + n
        → ((h + n) % (ones k + 1) + u32_mod - h) % (ones k + 1) ≡ n
    around m e =
        ap (λ t. t % (ones k + 1)) e ∙ mul-add-mod_self_left (ones k + 1) m n ∙ mod-eq_of_lt nn

-- On a queue at rest `count` is the number of items held.
count_lem : (k : ℕ) (held : List ℕ) (q : Queue) → Holds k held q → count q ≡ length held
unfolding count
count_lem k held q (popped, v) =
    rw (v.mask, v.tail_at) (distance k q.head (length held) v.exponent v.head_in v.room)

-- The producer's view of a full queue.
full_iff :
    (k : ℕ) (held : List ℕ) (q : Queue)
    → Holds k held q
    → (bit_and (add32 q.tail 1) q.mask == q.head) ≡ (length held == ones k)
full_iff k held q (popped, v) = ground (
  arith,
  masked_next k q.tail v.exponent,
  mod-lt (q.head + length held) {m = ones k + 1},
  mod_full (ones k + 1) q.head (length held),
  mod_last (ones k + 1) q.head (length held) (length held + 1) refl,
  mod_apart (ones k + 1) q.head (length held + 1) v.head_in,
)

empty_iff :
    (k : ℕ) (held : List ℕ) (q : Queue) → Holds k held q → (q.head == q.tail) ≡ (length held == 0)
empty_iff k held q (popped, v) = ground (
  arith,
  add-zero q.head,
  mod-eq_of_lt v.head_in,
  mod_apart (ones k + 1) q.head (length held) v.head_in,
)

-- The histories can be told anew: what is held decides.
settle :
    (k : ℕ) (held popped : List ℕ) (s : System)
    → s.producer ≡ p_idle
    → s.consumer ≡ c_idle
    → Inv k held s
    → Holds k held s.mem
settle k held popped s pe ce v = (
  popped,
  record {
    exponent = v.exponent;
    mask = v.mask;
    size = v.size;
    head_in = v.head_in;
    tail_at = v.tail_at;
    room = v.room;
    history = refl;
    producing = tt;
    consuming = rw ce at v.consuming;
  },
)

-- On a queue at rest `push` fails exactly if `capacity - 1` items are held, and then changes
-- nothing; otherwise it adds the item at the end. The queue is at rest again.
push_lem :
    (k : ℕ) (held : List ℕ) (q : Queue) (x : ℕ)
    → Holds k held q
    → let (pushed, q') = push q x in
      (pushed ≡ not (length held == ones k))
      × Holds k (if length held == ones k then held else held ++ x ∷ []) q'
      × ((if length held == ones k then q' else q) ≡ q)
unfolding push produce added
push_lem k held q x (popped, v) = elim (Bool-cases (length held == ones k)) [
  | inl full ↦ rw (full_iff k held q (popped, v), full) (refl, (popped, v), refl)
  | inr room ↦
      rw (full_iff k held q (popped, v), room)
        (
          refl,
          settle k (held ++ x ∷ []) popped (produce x written (produce x writing s)) refl refl (
              produce-Inv written x k held (produce x writing s) refl
                (produce-Inv writing x k held s refl (ready room))),
          refl,
        )
]
  where
    next : ℕ
    next = bit_and (add32 q.tail 1) q.mask

    writing : Producer
    writing = p_room x q.tail next

    written : Producer
    written = p_written x next

    s : System
    s = record {
      mem = q;
      producer = p_room x q.tail (bit_and (add32 q.tail 1) q.mask);
      consumer = c_idle;
      pushed = popped ++ held;
      popped = popped;
    }

    ready : (length held == ones k) ≡ false → Inv k held s
    ready room = record {
      exponent = v.exponent;
      mask = v.mask;
      size = v.size;
      head_in = v.head_in;
      tail_at = v.tail_at;
      room = v.room;
      history = v.history;
      producing =
          ground (
            arith,
            masked_next k q.tail v.exponent,
            mod-lt (q.head + length held) {m = ones k + 1},
          );
      consuming = v.consuming;
    }

nonempty : (n : ℕ) → (suc n == 0) ≡ false
nonempty n = ground arith

-- On a queue at rest `pop` gives the oldest item and keeps the others; if nothing is held it gives
-- NULL and leaves the queue unchanged. The queue is at rest again.
pop_lem :
    (k : ℕ) (held : List ℕ) (q : Queue)
    → Holds k held q
    → let (item, q') = pop q in
      (item ≡ get_or held 0 0) × Holds k (rest held) q' × ((if length held == 0 then q' else q) ≡ q)
unfolding pop consume taken
pop_lem k [] q (popped, v) = rw (empty_iff k [] q (popped, v)) (refl, (popped, v), refl)
pop_lem k (x ∷ xs) q (popped, v) = rw (empty_iff k (x ∷ xs) q (popped, v) ∙ nonempty (length xs)) (
  v.consuming.0,
  settle k xs popped (consume cleared (consume read s)) refl refl (
      consume-Inv cleared k (x ∷ xs) (consume read s) refl
        (consume-Inv read k (x ∷ xs) s refl reading)),
  rw (nonempty (length xs)) refl,
)
  where
    read : Consumer
    read = c_item q.head x

    cleared : Consumer
    cleared = c_cleared q.head x

    s : System
    s = record {
      mem = q;
      producer = p_idle;
      consumer = c_item q.head x;
      pushed = popped ++ x ∷ xs;
      popped = popped;
    }

    reading : Inv k (x ∷ xs) s
    reading = record {
      exponent = v.exponent;
      mask = v.mask;
      size = v.size;
      head_in = v.head_in;
      tail_at = v.tail_at;
      room = v.room;
      history = v.history;
      producing = v.producing;
      consuming = (refl, refl, v.consuming);
    }

-- On a queue of size 2 ^ k at rest, `count` is the number of items held; `push` fails exactly if
-- 2 ^ k - 1 items are held, and then leaves the queue as it is, field by field, and otherwise adds the
-- item at the end; `pop` gives the oldest item and keeps the others, and if nothing is held it gives
-- NULL and leaves the queue as it is. After either the queue is at rest again. An item may itself be
-- NULL, which `pop` gives like any other.
pub sequential :
    (k : ℕ) (held : List ℕ) (q : Queue) (x : ℕ)
    → Holds k held q
    → (count q ≡ length held)
      × ((push q x).0 ≡ not (length held == ones k))
      × Holds k (if length held == ones k then held else held ++ x ∷ []) (push q x).1
      × ((if length held == ones k then (push q x).1 else q) ≡ q)
      × ((pop q).0 ≡ get_or held 0 0)
      × Holds k (rest held) (pop q).1
      × ((if length held == 0 then (pop q).1 else q) ≡ q)
sequential k held q x h =
    let pushed = push_lem k held q x h in
    let popped = pop_lem k held q h in
    (count_lem k held q h, pushed.0, pushed.1, pushed.2, popped.0, popped.1, popped.2)
