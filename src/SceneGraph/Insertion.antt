-- ===== src/SceneGraph/Insertion.antt =====
-- Insertion sort by `item_compare_z_order`, and with it a choice of what scene_graph.c takes from
-- elsewhere; the arithmetic on doubles is that of whole numbers.
use Prim.Native.Nat.{Ordering}
use mathlib.Core.List.{Permᴰ}
use mathlib.Core.List.Permᴰ
use sbs_server.Prelude.{
  ◌≡◌, ◌≢◌, refl, true, false, Bool, List, [], ◌∷◌, All, All-mono, arith, if◌then◌else◌, if_elim,
  leb, ltb,
}
use sbs_server.Prelude.Bytes.{Bytes, strcmp}
use sbs_server.Prelude.Int.{ℤ, pos, negsuc, compare_ℤ}
use sbs_server.SceneGraph.Types.{Item}
use sbs_server.SceneGraph.Externals.{item_compare, IsSorted, Externals}

abbrev NotGt : Ordering → Type 0
NotGt o = o ≢ Ordering.gt

-- The comparison by a number, then by a string.
abbrev by_both : ℤ → Bytes → ℤ → Bytes → Ordering
by_both z a w b = elim (compare_ℤ z w) [
  | Ordering.lt ↦ Ordering.lt
  | Ordering.gt ↦ Ordering.gt
  | Ordering.eq ↦ strcmp a b
]

strcmp_trans : (a b c : Bytes) → NotGt (strcmp a b) → NotGt (strcmp b c) → NotGt (strcmp a c)
unfolding strcmp
strcmp_trans [] b [] h k = ground arith
strcmp_trans [] b (z ∷ c) h k = ground arith
strcmp_trans (x ∷ a) [] c h k = ground arith
strcmp_trans (x ∷ a) (y ∷ b) [] h k = ground arith
strcmp_trans (x ∷ a) (y ∷ b) (z ∷ c) h k = ground (arith, strcmp_trans a b c)

strcmp_total : (a b : Bytes) → strcmp a b ≡ Ordering.gt → NotGt (strcmp b a)
unfolding strcmp
strcmp_total [] [] h = ground arith
strcmp_total [] (y ∷ b) h = ground arith
strcmp_total (x ∷ a) [] h = ground arith
strcmp_total (x ∷ a) (y ∷ b) h = ground (arith, strcmp_total a b)

by_both_trans :
    (u v w : ℤ) (a b c : Bytes)
    → NotGt (by_both u a v b)
    → NotGt (by_both v b w c)
    → NotGt (by_both u a w c)
unfolding compare_ℤ
by_both_trans (pos u) (pos v) (pos w) a b c h k = ground (arith, strcmp_trans a b c)
by_both_trans (pos u) (pos v) (negsuc w) a b c h k = ground arith
by_both_trans (pos u) (negsuc v) w a b c h k = ground arith
by_both_trans (negsuc u) (pos v) (pos w) a b c h k = ground arith
by_both_trans (negsuc u) (pos v) (negsuc w) a b c h k = ground arith
by_both_trans (negsuc u) (negsuc v) (pos w) a b c h k = ground arith
by_both_trans (negsuc u) (negsuc v) (negsuc w) a b c h k = ground (arith, strcmp_trans a b c)

by_both_total : (u v : ℤ) (a b : Bytes) → by_both u a v b ≡ Ordering.gt → NotGt (by_both v b u a)
unfolding compare_ℤ
by_both_total (pos u) (pos v) a b h = ground (arith, strcmp_total a b)
by_both_total (pos u) (negsuc v) a b h = ground arith
by_both_total (negsuc u) (pos v) a b h = ground arith
by_both_total (negsuc u) (negsuc v) a b h = ground (arith, strcmp_total a b)

pub item_compare_trans :
    (x y z : Item) → NotGt (item_compare x y) → NotGt (item_compare y z) → NotGt (item_compare x z)
unfolding item_compare
item_compare_trans x y z h k = by_both_trans x.z_order y.z_order z.z_order x.id y.id z.id h k

pub item_compare_total : (x y : Item) → item_compare x y ≡ Ordering.gt → NotGt (item_compare y x)
unfolding item_compare
item_compare_total x y h = by_both_total x.z_order y.z_order x.id y.id h

unfoldable pub is_gt : Ordering → Bool
is_gt Ordering.gt = true
is_gt _ = false

is_gt-false : (o : Ordering) → is_gt o ≡ false → NotGt o
unfolding is_gt
is_gt-false Ordering.lt h = ground arith
is_gt-false Ordering.eq h = ground arith
is_gt-false Ordering.gt h = ground arith

is_gt-true : (o : Ordering) → is_gt o ≡ true → o ≡ Ordering.gt
unfolding is_gt
is_gt-true Ordering.lt h = ground arith
is_gt-true Ordering.eq h = ground arith
is_gt-true Ordering.gt h = refl

unfoldable pub insert_sorted : Item → List Item → List Item
unfolding is_gt
insert_sorted x [] = x ∷ []
insert_sorted x (y ∷ ys) =
    let rest = insert_sorted x ys in if is_gt (item_compare x y) then y ∷ rest else x ∷ y ∷ ys

unfoldable pub insertion_sort : List Item → List Item
unfolding insert_sorted
insertion_sort [] = []
insertion_sort (x ∷ xs) = insert_sorted x (insertion_sort xs)

insert_sorted-Permᴰ : (x : Item) (ys : List Item) → Permᴰ (insert_sorted x ys) (x ∷ ys)
unfolding insert_sorted
insert_sorted-Permᴰ x [] = Permᴰ.refl (x ∷ [])
insert_sorted-Permᴰ x (y ∷ ys) =
    if_elim (λ l. Permᴰ l (x ∷ y ∷ ys)) (is_gt (item_compare x y))
      (λ _. Permᴰ.trans (Permᴰ.cons refl (insert_sorted-Permᴰ x ys)) (Permᴰ.swap refl refl))
      (λ _. Permᴰ.refl (x ∷ y ∷ ys))

pub insertion_sort-Permᴰ : (l : List Item) → Permᴰ (insertion_sort l) l
unfolding insertion_sort
insertion_sort-Permᴰ [] = Permᴰ.refl []
insertion_sort-Permᴰ (x ∷ xs) =
    Permᴰ.trans (insert_sorted-Permᴰ x (insertion_sort xs))
      (Permᴰ.cons refl (insertion_sort-Permᴰ xs))

All-insert_sorted :
    (P : Item → Type 0) (x : Item) (ys : List Item) → P x → All P ys → All P (insert_sorted x ys)
unfolding insert_sorted
All-insert_sorted P x [] p h = (p, tt)
All-insert_sorted P x (y ∷ ys) p h =
    if_elim (All P) (is_gt (item_compare x y)) (λ _. (h.0, All-insert_sorted P x ys p h.1))
      (λ _. (p, h))

insert_sorted-IsSorted : (x : Item) (ys : List Item) → IsSorted ys → IsSorted (insert_sorted x ys)
unfolding insert_sorted
insert_sorted-IsSorted x [] h = (tt, tt)
insert_sorted-IsSorted x (y ∷ ys) h =
    if_elim IsSorted (is_gt (item_compare x y))
      (λ gt. (
        All-insert_sorted (λ z. NotGt (item_compare y z)) x ys
            (item_compare_total x y (is_gt-true (item_compare x y) gt)) h.0,
        insert_sorted-IsSorted x ys h.1,
      ))
      (λ le.
        let front = is_gt-false (item_compare x y) le in
        (
          (
            front,
            All-mono (λ z. NotGt (item_compare y z)) (λ z. NotGt (item_compare x z)) ys
                (λ z behind. item_compare_trans x y z front behind) h.0,
          ),
          h,
        ))

pub insertion_sort-IsSorted : (l : List Item) → IsSorted (insertion_sort l)
unfolding insertion_sort
insertion_sort-IsSorted [] = tt
insertion_sort-IsSorted (x ∷ xs) =
    insert_sorted-IsSorted x (insertion_sort xs) (insertion_sort-IsSorted xs)

-- The doubles are taken as whole numbers.
abbrev pub plain : Externals
plain = record {
  ge = λ a b. leb b a;
  gt = λ a b. ltb b a;
  div = λ a b. a;
  of_int = λ z. elim z [ pos n ↦ n | negsuc n ↦ 0 ];
  lround = λ a. pos a;
  strtod = λ s. 0;
  print_rounded = λ a. a ∷ [];
  sort = insertion_sort;
  sort_rearranges = insertion_sort-Permᴰ;
  sort_orders = insertion_sort-IsSorted;
}
