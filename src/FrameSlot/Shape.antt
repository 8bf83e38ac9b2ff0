-- ===== src/FrameSlot/Shape.antt =====
-- Case analysis on the ring: four entries, four places of the head, five fill levels.
use sbs_server.Prelude.{
  ℕ, zero, suc, ◌≤◌, ◌<◌, ◌≡◌, refl, sym, subst, Option, List, [], ◌∷◌, arith, length,
}
use sbs_server.FrameSlot.{Slot, Entry, ring_size}

pub data Head : Type 0 where
  h0 h1 h2 h3 : Head

pub data Held : Type 0 where
  c0 c1 c2 c3 c4 : Held

abbrev pub head_num : Head → ℕ
head_num h0 = 0
head_num h1 = 1
head_num h2 = 2
head_num h3 = 3

abbrev pub held_num : Held → ℕ
held_num c0 = 0
held_num c1 = 1
held_num c2 = 2
held_num c3 = 3
held_num c4 = 4

head_of : (n : ℕ) → n < 4 → (h : Head) × (n ≡ head_num h)
head_of zero p = (h0, refl)
head_of (suc zero) p = (h1, refl)
head_of (suc (suc zero)) p = (h2, refl)
head_of (suc (suc (suc zero))) p = (h3, refl)
head_of (suc (suc (suc (suc n)))) p = absurd (omega arith)

held_of : (n : ℕ) → n ≤ 4 → (c : Held) × (n ≡ held_num c)
held_of zero p = (c0, refl)
held_of (suc zero) p = (c1, refl)
held_of (suc (suc zero)) p = (c2, refl)
held_of (suc (suc (suc zero))) p = (c3, refl)
held_of (suc (suc (suc (suc zero)))) p = (c4, refl)
held_of (suc (suc (suc (suc (suc n))))) p = absurd (omega arith)

entries_of :
    (es : List Entry)
    → length es ≡ ring_size
    → (e0 e1 e2 e3 : Entry) × (es ≡ e0 ∷ e1 ∷ e2 ∷ e3 ∷ [])
entries_of [] p = absurd (omega arith)
entries_of (a ∷ []) p = absurd (omega arith)
entries_of (a ∷ b ∷ []) p = absurd (omega arith)
entries_of (a ∷ b ∷ c ∷ []) p = absurd (omega arith)
entries_of (a ∷ b ∷ c ∷ d ∷ []) p = (a, b, c, d, refl)
entries_of (a ∷ b ∷ c ∷ d ∷ e ∷ es) p = absurd (omega arith)

-- What a property of slots has to be proved of: every shape, any entries, callback and counters.
abbrev pub AtEveryShape : (Slot → Type 0) → Type 0
AtEveryShape P =
    (h : Head) (c : Held) (e0 e1 e2 e3 : Entry) (fn : Option ℕ) (p d k : ℕ)
    → P (record {
      entries = e0 ∷ e1 ∷ e2 ∷ e3 ∷ [];
      head = head_num h;
      count = held_num c;
      release_fn = fn;
      produced = p;
      dropped = d;
      consumed = k;
    })

pub shape_cases :
    (P : Slot → Type 0)
    → AtEveryShape P
    → (s : Slot) → length s.entries ≡ ring_size
    → s.head < ring_size
    → s.count ≤ ring_size
    → P s
shape_cases P every s size head_in count_in =
    let (e0, e1, e2, e3, es) = entries_of s.entries size in
    let (h, hs) = head_of s.head head_in in
    let (c, cs) = held_of s.count count_in in
    subst P (sym (λ i. record s { entries = es i; head = hs i; count = cs i }))
      (every h c e0 e1 e2 e3 s.release_fn s.produced s.dropped s.consumed)
