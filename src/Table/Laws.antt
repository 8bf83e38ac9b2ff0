-- ===== src/Table/Laws.antt =====
-- Lookups after each operation of a table, and what holds of every entry.
use mathlib.Core.Path.{subst}
use sbs_server.Prelude.{
  none, some, [], ◌∷◌, if◌then◌else◌, ◌≡◌, refl, arith, All, Bool-cases, inl, inr,
}
use sbs_server.Prelude.Bytes.{Bytes, str_eq, str_eq_iff}
use sbs_server.Table.{Table, lookup, contains, insert, remove, map_values}

module _ {ℓ} {V : Type ℓ} where
  pub lookup-insert :
      (k j : Bytes) (v : V) (m : Table V)
      → lookup j (insert k v m) ≡ (if str_eq k j then some v else lookup j m)
  unfolding lookup insert
  lookup-insert k j v [] = refl
  lookup-insert k j v ((i, w) ∷ m) =
      ground (arith, str_eq_iff k j, str_eq_iff i k, str_eq_iff i j, lookup-insert k j v m)

  pub lookup-remove :
      (k j : Bytes) (m : Table V)
      → lookup j (remove k m) ≡ (if str_eq k j then none else lookup j m)
  unfolding lookup remove
  lookup-remove k j [] = ground arith
  lookup-remove k j ((i, w) ∷ m) =
      ground (arith, str_eq_iff k j, str_eq_iff i k, str_eq_iff i j, lookup-remove k j m)

  pub contains-map_values :
      (f : V → V) (j : Bytes) (m : Table V) → contains j (map_values f m) ≡ contains j m
  unfolding lookup map_values
  contains-map_values f j [] = refl
  contains-map_values f j ((i, w) ∷ m) = ground (arith, contains-map_values f j m)

  -- What holds of every entry, key and value.
  abbrev pub Every {κ} : (Bytes → V → Type κ) → Table V → Type κ
  Every P m = All (λ e. P e.0 e.1) m

  module _ {κ} (P : Bytes → V → Type κ) where
    pub Every-insert :
        (k : Bytes) (v : V) (m : Table V) → P k v → Every P m → Every P (insert k v m)
    unfolding insert
    Every-insert k v [] p h = (p, tt)
    Every-insert k v ((j, w) ∷ m) p h = elim (Bool-cases (str_eq j k)) [
      | inl hit ↦ rw hit (p, h.1)
      | inr miss ↦ rw miss (h.0, Every-insert k v m p h.1)
    ]

    pub Every-remove : (k : Bytes) (m : Table V) → Every P m → Every P (remove k m)
    unfolding remove
    Every-remove k [] h = tt
    Every-remove k ((j, w) ∷ m) h = elim (Bool-cases (str_eq j k)) [
      | inl hit ↦ rw hit (Every-remove k m h.1)
      | inr miss ↦ rw miss (h.0, Every-remove k m h.1)
    ]

    pub Every-map_values :
        (f : V → V) (Q : Bytes → V → Type κ) (m : Table V)
        → ((k : Bytes) (v : V) → P k v → Q k (f v))
        → Every P m
        → Every Q (map_values f m)
    unfolding map_values
    Every-map_values f Q [] step h = tt
    Every-map_values f Q ((j, w) ∷ m) step h = (step j w h.0, Every-map_values f Q m step h.1)

    pub Every-lookup : (k : Bytes) (v : V) (m : Table V) → lookup k m ≡ some v → Every P m → P k v
    unfolding lookup
    Every-lookup k v [] e h = cc
    Every-lookup k v ((j, w) ∷ m) e h = elim (Bool-cases (str_eq j k)) [
      | inl hit ↦
          let e' : some w ≡ some v = (rw hit at e) in
          let same : w ≡ v = cc in
          subst (λ i. P i v) ((str_eq_iff j k).0 hit) (subst (P j) same h.0)
      | inr miss ↦ Every-lookup k v m (rw miss at e) h.1
    ]
