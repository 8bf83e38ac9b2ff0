-- ===== src/Spsc/Ring.antt =====
-- Consecutive places of a ring, and what stands in them.
use native.Mathlib.Nat.{mod-eq_of_lt, mod-eq-sub-mod, mod-add-mod, add-mod_right, add-zero, mod-lt}
use sbs_server.Prelude.{
  ℕ, zero, suc, ◌+◌, ◌-◌, ◌%◌, ◌≤◌, ◌<◌, ◌≡◌, ◌≢◌, ap, ◌∙◌, List, [], ◌∷◌, ◌++◌, arith, get_or, set,
  length, get_or-set_ne, dec_lt,
}

-- A shorter way than once round does not come back to the start.
pub mod_apart : (cap h j : ℕ) → h < cap → 0 < j → j < cap → (h + j) % cap ≢ h
mod_apart cap h j hh pos small = elim (dec_lt (h + j) cap) [
  | yes p ↦ omega (arith, mod-eq_of_lt p)
  | no p ↦ omega (
    arith,
    mod-eq-sub-mod {n = h + j} {m = cap} (omega arith),
    mod-eq_of_lt {n = h + j - cap} {m = cap} (omega arith),
  )
]

pub mod_next : (cap h j : ℕ) → (h + suc j) % cap ≡ ((h + 1) % cap + j) % cap
mod_next cap h j = omega (arith, mod-add-mod (h + 1) cap j, ap (λ (t : ℕ). t % cap) same)
  where
    same : h + suc j ≡ h + 1 + j
    same = omega arith

pub mod_last : (cap h n m : ℕ) → m ≡ n + 1 → ((h + n) % cap + 1) % cap ≡ (h + m) % cap
mod_last cap h n m e = omega (arith, mod-add-mod (h + n) cap 1, ap (λ (t : ℕ). t % cap) same)
  where
    same : h + n + 1 ≡ h + m
    same = omega arith

-- With one item less than `cap` the place past the next one is the first.
pub mod_full : (cap h n : ℕ) → h < cap → suc n ≡ cap → ((h + n) % cap + 1) % cap ≡ h
mod_full cap h n hh full = omega (
  arith,
  mod-add-mod (h + n) cap 1,
  ap (λ (t : ℕ). t % cap) same,
  add-mod_right h cap,
  mod-eq_of_lt hh,
)
  where
    same : h + n + 1 ≡ h + cap
    same = omega arith

sub_suc : {n : ℕ} → 0 < n → suc (n - 1) ≡ n
sub_suc h = omega arith

module _ (cap : ℕ) where
  -- The items stand in the slots from place `h` on, round the end at `cap`.
  abbrev pub Stored : List ℕ → ℕ → List ℕ → Type 0
  Stored slots h [] = Unit {0}
  Stored slots h (x ∷ xs) = (get_or slots h 0 ≡ x) × Stored slots ((h + 1) % cap) xs

  -- A write past the stored items leaves them.
  pub Stored-set :
      (slots : List ℕ) (h : ℕ) (xs : List ℕ) (i v j : ℕ)
      → h < cap
      → length xs ≤ j
      → j < cap
      → i ≡ (h + j) % cap
      → Stored slots h xs
      → Stored (set slots i v) h xs
  Stored-set slots h [] i v j hh le lt e st = tt
  Stored-set slots h (x ∷ xs) i v zero hh le lt e st = absurd (omega arith)
  Stored-set slots h (x ∷ xs) i v (suc j) hh le lt e st = (
    get_or-set_ne slots i h v 0 (rw e (mod_apart cap h (suc j) hh (omega arith) lt)) ∙ st.0,
    Stored-set slots ((h + 1) % cap) xs i v j (omega arith) (omega arith) (omega arith)
        (e ∙ mod_next cap h j) st.1,
  )

  -- One more item at the end.
  pub Stored-snoc :
      (slots : List ℕ) (h : ℕ) (xs : List ℕ) (x : ℕ)
      → h < cap
      → get_or slots ((h + length xs) % cap) 0 ≡ x
      → Stored slots h xs
      → Stored slots h (xs ++ x ∷ [])
  Stored-snoc slots h [] x hh e st = (rw (add-zero, mod-eq_of_lt hh) at e, tt)
  Stored-snoc slots h (y ∷ ys) x hh e st = (
    st.0,
    Stored-snoc slots ((h + 1) % cap) ys x (omega arith) (rw (← mod_next cap h (length ys)) e) st.1,
  )

  -- Clearing the first place leaves the other items.
  pub Stored-clear_first :
      (slots : List ℕ) (h : ℕ) (x : ℕ) (xs : List ℕ)
      → h < cap
      → length (x ∷ xs) < cap
      → Stored slots h (x ∷ xs)
      → Stored (set slots h 0) ((h + 1) % cap) xs
  Stored-clear_first slots h x xs hh lt st =
      Stored-set slots ((h + 1) % cap) xs h 0 (cap - 1) (mod-lt (h + 1) (omega arith)) (omega arith)
        (omega arith) (round ∙ mod_next cap h (cap - 1)) st.1
    where
      round : h ≡ (h + suc (cap - 1)) % cap
      round = omega (
        arith,
        ap (λ (t : ℕ). (h + t) % cap) (sub_suc {n = cap} (omega arith)),
        add-mod_right h cap,
        mod-eq_of_lt hh,
      )
