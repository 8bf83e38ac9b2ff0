-- ===== src/Spsc/Invariant.antt =====
-- What holds of the memory and of both threads between any two accesses.
use native.Mathlib.Nat.{mod-eq_of_lt, add-zero, mod-lt}
use mathlib.Core.List.{append_assoc}
use Prim.Native.Nat.{bit_and}
use sbs_server.Prelude.{
  ℕ, zero, suc, ◌+◌, ◌%◌, ◌≤◌, ◌<◌, ◌≡◌, ◌≢◌, ap, sym, ◌∙◌, List, [], ◌∷◌, ◌++◌, arith, get_or, set,
  length, length-append, length-set, get_or-set_self, get_or-set_ne,
}
use sbs_server.Prelude.Words.{add32}
use sbs_server.Prelude.Masks.{ones, bit_and-ones}
use sbs_server.Spsc.Ring.{
  Stored, Stored-set, Stored-snoc, Stored-clear_first, mod_apart, mod_next, mod_full, mod_last,
}
use sbs_server.Spsc.Threads.{
  System, Producer, p_idle, p_tail, p_room, p_written, Consumer, c_idle, c_head, c_some, c_item,
  c_cleared, produce, consume,
}

abbrev pub rest : List ℕ → List ℕ
rest [] = []
rest (x ∷ xs) = xs

module _ (cap : ℕ) where
  -- What the producer knows, with `n` items held.
  abbrev pub ProducerOk : ℕ → List ℕ → ℕ → Producer → Type 0
  ProducerOk tail slots n p_idle = Unit {0}
  ProducerOk tail slots n (p_tail item t) = t ≡ tail
  ProducerOk tail slots n (p_room item t next) =
      (t ≡ tail) × (next ≡ (tail + 1) % cap) × (suc n < cap)
  ProducerOk tail slots n (p_written item next) =
      (next ≡ (tail + 1) % cap) × (suc n < cap) × (get_or slots tail 0 ≡ item)

  -- What the consumer knows; it has cleared the first item's slot before it moves `head`.
  abbrev pub ConsumerOk : ℕ → List ℕ → List ℕ → Consumer → Type 0
  ConsumerOk head slots held c_idle = Stored cap slots head held
  ConsumerOk head slots held (c_head h) = (h ≡ head) × Stored cap slots head held
  ConsumerOk head slots held (c_some h) =
      (h ≡ head) × (0 < length held) × Stored cap slots head held
  ConsumerOk head slots held (c_item h item) =
      (h ≡ head) × (held ≡ item ∷ rest held) × Stored cap slots head held
  ConsumerOk head slots held (c_cleared h item) =
      (h ≡ head) × (held ≡ item ∷ rest held) × Stored cap slots ((head + 1) % cap) (rest held)

  consumer_write :
      (c : Consumer) (head : ℕ) (slots held : List ℕ) (i v : ℕ)
      → head < cap
      → length held < cap
      → i ≡ (head + length held) % cap
      → ConsumerOk head slots held c
      → ConsumerOk head (set slots i v) held c
  consumer_write c_idle head slots held i v hh lt e ok =
      Stored-set cap slots head held i v (length held) hh (omega arith) lt e ok
  consumer_write (c_head h) head slots held i v hh lt e ok =
      (ok.0, Stored-set cap slots head held i v (length held) hh (omega arith) lt e ok.1)
  consumer_write (c_some h) head slots held i v hh lt e ok =
      (ok.0, ok.1, Stored-set cap slots head held i v (length held) hh (omega arith) lt e ok.2)
  consumer_write (c_item h item) head slots held i v hh lt e ok =
      (ok.0, ok.1, Stored-set cap slots head held i v (length held) hh (omega arith) lt e ok.2)
  consumer_write (c_cleared h item) head slots [] i v hh lt e ok = cc (ok.1)
  consumer_write (c_cleared h item) head slots (x ∷ xs) i v hh lt e ok = (
    ok.0,
    ok.1,
    Stored-set cap slots ((head + 1) % cap) xs i v (length xs) (omega arith) (omega arith)
        (omega arith) (e ∙ mod_next cap head (length xs)) ok.2,
  )

  consumer_snoc :
      (c : Consumer) (head : ℕ) (slots held : List ℕ) (x : ℕ)
      → head < cap
      → get_or slots ((head + length held) % cap) 0 ≡ x
      → ConsumerOk head slots held c
      → ConsumerOk head slots (held ++ x ∷ []) c
  consumer_snoc c_idle head slots held x hh e ok = Stored-snoc cap slots head held x hh e ok
  consumer_snoc (c_head h) head slots held x hh e ok =
      (ok.0, Stored-snoc cap slots head held x hh e ok.1)
  consumer_snoc (c_some h) head slots held x hh e ok = (
    ok.0,
    omega (arith, length-append held (x ∷ [])),
    Stored-snoc cap slots head held x hh e ok.2,
  )
  consumer_snoc (c_item h item) head slots [] x hh e ok = cc (ok.1)
  consumer_snoc (c_item h item) head slots (y ∷ ys) x hh e ok =
      (ok.0, cc (ok.1), Stored-snoc cap slots head (y ∷ ys) x hh e ok.2)
  consumer_snoc (c_cleared h item) head slots [] x hh e ok = cc (ok.1)
  consumer_snoc (c_cleared h item) head slots (y ∷ ys) x hh e ok = (
    ok.0,
    cc (ok.1),
    Stored-snoc cap slots ((head + 1) % cap) ys x (omega arith)
        (rw (← mod_next cap head (length ys)) e) ok.2,
  )

  producer_clear :
      (p : Producer) (tail : ℕ) (slots : List ℕ) (n i : ℕ)
      → i ≢ tail
      → ProducerOk tail slots n p
      → ProducerOk tail (set slots i 0) n p
  producer_clear p_idle tail slots n i ne ok = tt
  producer_clear (p_tail item t) tail slots n i ne ok = ok
  producer_clear (p_room item t next) tail slots n i ne ok = ok
  producer_clear (p_written item next) tail slots n i ne ok =
      (ok.0, ok.1, get_or-set_ne slots i tail 0 0 ne ∙ ok.2)

  producer_fewer :
      (p : Producer) (tail : ℕ) (slots : List ℕ) (m n : ℕ)
      → m ≤ n
      → ProducerOk tail slots n p
      → ProducerOk tail slots m p
  producer_fewer p_idle tail slots m n le ok = tt
  producer_fewer (p_tail item t) tail slots m n le ok = ok
  producer_fewer (p_room item t next) tail slots m n le ok = (ok.0, ok.1, omega arith)
  producer_fewer (p_written item next) tail slots m n le ok = (ok.0, omega arith, ok.2)

-- The queue's size is `2^k`, `held` is what was pushed and not popped, oldest first.
pub record Inv (k : ℕ) (held : List ℕ) (s : System) : Type 0 where
  pub exponent : k ≤ 12
  pub mask : s.mem.mask ≡ ones k
  pub size : length s.mem.slots ≡ ones k + 1
  pub head_in : s.mem.head < ones k + 1
  pub tail_at : s.mem.tail ≡ (s.mem.head + length held) % (ones k + 1)
  pub room : length held < ones k + 1
  pub history : s.pushed ≡ s.popped ++ held
  pub producing : ProducerOk (ones k + 1) s.mem.tail s.mem.slots (length held) s.producer
  pub consuming : ConsumerOk (ones k + 1) s.mem.head s.mem.slots held s.consumer

ones_mono : (k m : ℕ) → k ≤ m → ones k ≤ ones m
ones_mono zero m h = omega arith
ones_mono (suc k) zero h = absurd (omega arith)
ones_mono (suc k) (suc m) h = omega (arith, ones_mono k m (omega arith))

-- `(i + 1) & mask` on a place of the ring.
pub masked_next :
    (k i : ℕ) → k ≤ 12 → i < ones k + 1 → bit_and (add32 i 1) (ones k) ≡ (i + 1) % (ones k + 1)
masked_next k i le lt =
    bit_and-ones k (add32 i 1) ∙ ap (λ t. t % (ones k + 1)) (omega (arith, ones_mono k 12 le))

place_in : (k : ℕ) (held : List ℕ) (s : System) → Inv k held s → s.mem.tail < length s.mem.slots
place_in k held s v =
    omega
      (arith, v.size, v.tail_at, mod-lt (s.mem.head + length held) {m = ones k + 1} (omega arith))

-- The producer's accesses keep the invariant; the one that stores `tail` adds the item.
unfoldable pub added : Producer → List ℕ → List ℕ
added (p_written x next) held = held ++ x ∷ []
added _ held = held

pub produce-Inv :
    (p : Producer) (item k : ℕ) (held : List ℕ) (s : System)
    → s.producer ≡ p
    → Inv k held s
    → Inv k (added p held) (produce item p s)
unfolding added produce
produce-Inv p_idle item k held s e v = ground arith
produce-Inv (p_tail x t) item k held s e v = ground (
  arith,
  masked_next k t,
  mod-lt (s.mem.head + length held) {m = ones k + 1},
  mod_full (ones k + 1) s.mem.head (length held),
)
produce-Inv (p_room x t next) item k held s e v =
    let ok : ProducerOk (ones k + 1) s.mem.tail s.mem.slots (length held) (p_room x t next) =
      (rw e at v.producing) in
    record {
      exponent = v.exponent;
      mask = v.mask;
      size = length-set s.mem.slots t x ∙ v.size;
      head_in = v.head_in;
      tail_at = v.tail_at;
      room = v.room;
      history = v.history;
      producing =
          (ok.1, ok.2, rw ok.0 (get_or-set_self s.mem.slots s.mem.tail x 0 (place_in k held s v)));
      consuming =
          consumer_write (ones k + 1) s.consumer s.mem.head s.mem.slots held t x v.head_in v.room
            (ok.0 ∙ v.tail_at) v.consuming;
    }
produce-Inv (p_written x next) item k held s e v =
    let ok : ProducerOk (ones k + 1) s.mem.tail s.mem.slots (length held) (p_written x next) =
      (rw e at v.producing) in
    let len = length-append held (x ∷ []) in
    record {
      exponent = v.exponent;
      mask = v.mask;
      size = v.size;
      head_in = v.head_in;
      tail_at =
          ok.0
          ∙ ap (λ t. (t + 1) % (ones k + 1)) v.tail_at
          ∙ mod_last (ones k + 1) s.mem.head (length held) _ len;
      room = omega (arith, len);
      history = rw v.history (append_assoc s.popped held (x ∷ []));
      producing = tt;
      consuming =
          consumer_snoc (ones k + 1) s.consumer s.mem.head s.mem.slots held x v.head_in
            (rw (← v.tail_at) ok.2) v.consuming;
    }

-- The consumer's accesses keep it too; the one that stores `head` takes the first item away.
unfoldable pub taken : Consumer → List ℕ → List ℕ
taken (c_cleared h x) held = rest held
taken _ held = held

pub tail_apart :
    (k : ℕ) (held : List ℕ) (s : System) → Inv k held s → 0 < length held → s.mem.head ≢ s.mem.tail
tail_apart k held s v pos e =
    mod_apart (ones k + 1) s.mem.head (length held) v.head_in pos v.room (sym v.tail_at ∙ sym e)

first-Stored :
    (cap : ℕ) (slots : List ℕ) (h : ℕ) (held : List ℕ)
    → 0 < length held
    → Stored cap slots h held
    → held ≡ get_or slots h 0 ∷ rest held
first-Stored cap slots h [] pos st = absurd (omega arith)
first-Stored cap slots h (x ∷ xs) pos st = rw st.0

clear_first :
    (cap : ℕ) (slots : List ℕ) (h x : ℕ) (held : List ℕ)
    → h < cap
    → length held < cap
    → held ≡ x ∷ rest held
    → Stored cap slots h held
    → Stored cap (set slots h 0) ((h + 1) % cap) (rest held)
clear_first cap slots h x [] hh lt e st = cc
clear_first cap slots h x (y ∷ ys) hh lt e st = Stored-clear_first cap slots h y ys hh lt st

pub consume-Inv :
    (c : Consumer) (k : ℕ) (held : List ℕ) (s : System)
    → s.consumer ≡ c
    → Inv k held s
    → Inv k (taken c held) (consume c s)
unfolding taken consume
consume-Inv c_idle k held s e v =
    let ok : ConsumerOk (ones k + 1) s.mem.head s.mem.slots held c_idle = (rw e at v.consuming) in
    ground arith
consume-Inv (c_head h) k held s e v =
    let ok : ConsumerOk (ones k + 1) s.mem.head s.mem.slots held (c_head h) =
      (rw e at v.consuming) in
    ground (arith, add-zero s.mem.head, mod-eq_of_lt v.head_in)
consume-Inv (c_some h) k held s e v =
    let ok : ConsumerOk (ones k + 1) s.mem.head s.mem.slots held (c_some h) =
      (rw e at v.consuming) in
    ground (arith, first-Stored (ones k + 1) s.mem.slots h held)
consume-Inv (c_item h x) k held s e v =
    let ok : ConsumerOk (ones k + 1) s.mem.head s.mem.slots held (c_item h x) =
      (rw e at v.consuming) in
    let pos : 0 < length held = omega (arith, ap length ok.1) in
    record {
      exponent = v.exponent;
      mask = v.mask;
      size = length-set s.mem.slots h 0 ∙ v.size;
      head_in = v.head_in;
      tail_at = v.tail_at;
      room = v.room;
      history = v.history;
      producing =
          producer_clear (ones k + 1) s.producer s.mem.tail s.mem.slots (length held) h
            (λ at_tail. tail_apart k held s v pos (sym ok.0 ∙ at_tail)) v.producing;
      consuming = (
        ok.0,
        ok.1,
        rw ok.0 (clear_first (ones k + 1) s.mem.slots s.mem.head x held v.head_in v.room ok.1 ok.2),
      );
    }
consume-Inv (c_cleared h x) k held s e v =
    let ok : ConsumerOk (ones k + 1) s.mem.head s.mem.slots held (c_cleared h x) =
      (rw e at v.consuming) in
    let len : length held ≡ suc (length (rest held)) = ap length ok.1 in
    let next : bit_and (add32 h 1) s.mem.mask ≡ (s.mem.head + 1) % (ones k + 1) =
      (rw (ok.0, v.mask) (masked_next k s.mem.head v.exponent v.head_in)) in
    record {
      exponent = v.exponent;
      mask = v.mask;
      size = v.size;
      head_in = rw next (mod-lt (s.mem.head + 1) (omega arith));
      tail_at =
          v.tail_at
          ∙ ap (λ t. (s.mem.head + t) % (ones k + 1)) len
          ∙ mod_next (ones k + 1) s.mem.head (length (rest held))
          ∙ ap (λ t. (t + length (rest held)) % (ones k + 1)) (sym next);
      room = omega (arith, len);
      history =
          v.history
          ∙ ap (λ t. s.popped ++ t) ok.1
          ∙ sym (append_assoc s.popped (x ∷ []) (rest held));
      producing =
          producer_fewer (ones k + 1) s.producer s.mem.tail s.mem.slots (length (rest held))
            (length held) (omega (arith, len)) v.producing;
      consuming = rw next ok.2;
    }
