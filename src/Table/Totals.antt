-- ===== src/Table/Totals.antt =====
-- Tables with each key once, and a number summed over the entries.
use sbs_server.Prelude.{
  ℕ, ◌+◌, none, some, [], ◌∷◌, ◌≡◌, refl, sym, ap, arith, Bool-cases, inl, inr,
}
use sbs_server.Prelude.Bytes.{Bytes, str_eq, str_eq_iff, str_eq_refl}
use sbs_server.Table.{Table, lookup, insert, remove}
use sbs_server.Table.Laws.{lookup-insert, lookup-remove}

module _ {ℓ} {V : Type ℓ} where
  -- No key stands twice.
  abbrev pub IsDistinct : Table V → Type ℓ
  IsDistinct [] = Unit
  IsDistinct ((k, v) ∷ m) = (lookup k m ≡ none) × IsDistinct m

  pub remove_absent : (k : Bytes) (m : Table V) → lookup k m ≡ none → remove k m ≡ m
  unfolding lookup remove
  remove_absent k [] h = refl
  remove_absent k ((j, w) ∷ m) h = elim (Bool-cases (str_eq j k)) [
    | inl hit ↦ absurd (ground (arith, hit, h))
    | inr miss ↦ rw miss (ap (λ r. (j, w) ∷ r) (remove_absent k m (rw miss at h)))
  ]

  pub remove-insert_absent :
      (k : Bytes) (v : V) (m : Table V) → lookup k m ≡ none → remove k (insert k v m) ≡ m
  unfolding lookup insert remove
  remove-insert_absent k v [] h = rw (str_eq_refl k) refl
  remove-insert_absent k v ((j, w) ∷ m) h = elim (Bool-cases (str_eq j k)) [
    | inl hit ↦ absurd (ground (arith, hit, h))
    | inr miss ↦ rw (miss, miss) (ap (λ r. (j, w) ∷ r) (remove-insert_absent k v m (rw miss at h)))
  ]

  empty : (k : Bytes) → lookup {V = V} k [] ≡ none
  unfolding lookup
  empty k = refl

  pub insert-IsDistinct :
      (k : Bytes) (v : V) (m : Table V) → IsDistinct m → IsDistinct (insert k v m)
  unfolding insert
  insert-IsDistinct k v [] h = (empty k, tt)
  insert-IsDistinct k v ((j, w) ∷ m) h = elim (Bool-cases (str_eq j k)) [
    | inl hit ↦ rw hit (rw (sym ((str_eq_iff j k).0 hit)) h.0, h.1)
    | inr miss ↦ rw miss (
      ground (arith, h.0, miss, lookup-insert k j v m, str_eq_iff k j, str_eq_iff j k),
      insert-IsDistinct k v m h.1,
    )
  ]

  pub remove-IsDistinct : (k : Bytes) (m : Table V) → IsDistinct m → IsDistinct (remove k m)
  unfolding remove
  remove-IsDistinct k [] h = tt
  remove-IsDistinct k ((j, w) ∷ m) h = elim (Bool-cases (str_eq j k)) [
    | inl hit ↦ rw hit (remove-IsDistinct k m h.1)
    | inr miss ↦ rw miss (ground (arith, h.0, lookup-remove k j m), remove-IsDistinct k m h.1)
  ]

  module _ (f : V → ℕ) where
    abbrev pub total : Table V → ℕ
    total [] = 0
    total ((k, v) ∷ m) = f v + total m

    pub total-insert_new :
        (k : Bytes) (v : V) (m : Table V) → lookup k m ≡ none → total (insert k v m) ≡ total m + f v
    unfolding lookup insert
    total-insert_new k v [] h = omega arith
    total-insert_new k v ((j, w) ∷ m) h = ground (arith, total-insert_new k v m)

    pub total-insert_old :
        (k : Bytes) (v old : V) (m : Table V)
        → lookup k m ≡ some old
        → total (insert k v m) + f old ≡ total m + f v
    unfolding lookup insert
    total-insert_old k v old [] h = absurd (ground (arith, h))
    total-insert_old k v old ((j, w) ∷ m) h = ground (arith, total-insert_old k v old m)

    pub total-remove :
        (k : Bytes) (old : V) (m : Table V)
        → IsDistinct m
        → lookup k m ≡ some old
        → total (remove k m) + f old ≡ total m
    unfolding lookup remove
    total-remove k old [] d h = absurd (ground (arith, h))
    total-remove k old ((j, w) ∷ m) d h = elim (Bool-cases (str_eq j k)) [
      | inl hit ↦
          let gone : remove k m ≡ m = remove_absent k m (rw ((str_eq_iff j k).0 hit) at d.0) in
          rw (hit, gone) (ground (arith, hit, h))
      | inr miss ↦ rw miss (omega (arith, total-remove k old m d.1 (rw miss at h)))
    ]
