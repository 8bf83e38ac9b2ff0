-- ===== src/SceneGraph/Keeps/Items.antt =====
-- What holds of every item holds after each change of the list.
use mathlib.Core.List.{Permᴰ}
use mathlib.Core.List.Permᴰ
use mathlib.Core.Path.{subst}
use sbs_server.Prelude.{
  Option, none, some, List, [], ◌∷◌, All, Bool-cases, inl, inr, ℕ, ◌+◌, ◌*◌, ◌%◌, Option-cases,
}
use sbs_server.Prelude.Bytes.{Bytes, str_eq}
use sbs_server.SceneGraph.Types.{Item}
use sbs_server.SceneGraph.Externals.{Externals}
use sbs_server.SceneGraph.Copies.{remove_first, update_first, find_item}
use sbs_server.SceneGraph.Scenes.{assign_order}
use sbs_server.Prelude.Int.{ℤ, to_int32}
use sbs_server.Prelude.Words.{u64_mod}

module _ (P : Item → Type 0) where
  pub All-Permᴰ : {xs ys : List Item} → Permᴰ xs ys → All P xs → All P ys
  All-Permᴰ Permᴰ.nil h = h
  All-Permᴰ (Permᴰ.cons e d) h = (subst P e h.0, All-Permᴰ d h.1)
  All-Permᴰ (Permᴰ.swap e f) h = (subst P f h.1.0, (subst P e h.0, h.1.1))
  All-Permᴰ (Permᴰ.trans d f) h = All-Permᴰ f (All-Permᴰ d h)

  pub All-sort : (X : Externals) (xs : List Item) → All P xs → All P (X.sort xs)
  All-sort X xs h = All-Permᴰ (Permᴰ.symm (X.sort_rearranges xs)) h

  pub All-remove_first : (id : Bytes) (xs : List Item) → All P xs → All P (remove_first id xs)
  unfolding remove_first
  All-remove_first id [] h = h
  All-remove_first id (x ∷ xs) h = elim (Bool-cases (str_eq x.id id)) [
    | inl hit ↦ rw hit h.1
    | inr miss ↦ rw miss (h.0, All-remove_first id xs h.1)
  ]

  pub All-update_first :
      (id : Bytes) (f : Item → Item) (xs : List Item)
      → ((x : Item) → P x → P (f x))
      → All P xs
      → All P (update_first id f xs)
  unfolding update_first
  All-update_first id f [] k h = h
  All-update_first id f (x ∷ xs) k h = elim (Bool-cases (str_eq x.id id)) [
    | inl hit ↦ rw hit (k x h.0, h.1)
    | inr miss ↦ rw miss (h.0, All-update_first id f xs k h.1)
  ]

  pub All-assign_order :
      (X : Externals) (i : ℕ) (ids : List (Option Bytes)) (xs : List Item)
      → ((x : Item) (z : ℤ) → P x → P (record x { z_order = z }))
      → All P xs
      → All P (assign_order X i ids xs).1
  unfolding assign_order
  All-assign_order X i [] xs k h = h
  All-assign_order X i (none ∷ ids) xs k h = h
  All-assign_order X i (some id ∷ ids) xs k h = elim (Option-cases (find_item id xs)) [
    | inl e ↦ rw (e, All) h
    | inr (x, e) ↦
        rw (e, All)
          (All-assign_order X (i + 1) ids
            (update_first id (λ x. record x { z_order = to_int32 ((i * 10) % u64_mod) }) xs) k
            (All-update_first id (λ x. record x { z_order = to_int32 ((i * 10) % u64_mod) }) xs
              (λ x. k x (to_int32 ((i * 10) % u64_mod))) h))
  ]
