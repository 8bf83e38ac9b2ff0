-- ===== src/SceneGraph/Externals.antt =====
-- What scene_graph.c takes from elsewhere: arithmetic on doubles, and GLib's sort of an array.
use Prim.Native.Nat.{Ordering}
use mathlib.Core.List.{Permᴰ}
use sbs_server.Prelude.{Bool, List, [], ◌∷◌, ◌≢◌, All}
use sbs_server.Prelude.Bytes.{Bytes, strcmp}
use sbs_server.Prelude.Int.{ℤ, compare_ℤ}
use sbs_server.SceneGraph.Types.{Double, Item}

-- `item_compare_z_order`: by z-order, then by id.
unfoldable pub item_compare : Item → Item → Ordering
item_compare a b = elim (compare_ℤ a.z_order b.z_order) [
  | Ordering.lt ↦ Ordering.lt
  | Ordering.gt ↦ Ordering.gt
  | Ordering.eq ↦ strcmp a.id b.id
]

-- No item stands before one that it belongs behind.
abbrev pub IsSorted : List Item → Type 0
IsSorted [] = Unit {0}
IsSorted (x ∷ xs) = All (λ y. item_compare x y ≢ Ordering.gt) xs × IsSorted xs

pub record Externals : Type 0 where
  -- `a >= b`, `a > b`, `a / b`, `(double)n`
  pub ge : Double → Double → Bool
  pub gt : Double → Double → Bool
  pub div : Double → Double → Double
  pub of_int : ℤ → Double
  -- `lround`, `g_ascii_strtod`, and `g_snprintf` with "%.0f"
  pub lround : Double → ℤ
  pub strtod : Bytes → Double
  pub print_rounded : Double → Bytes
  -- `g_ptr_array_sort` with `item_compare_z_order`
  pub sort : List Item → List Item
  pub sort_rearranges : (l : List Item) → Permᴰ (sort l) l
  pub sort_orders : (l : List Item) → IsSorted (sort l)
