-- ===== src/SceneGraph/Copies.antt =====
-- The deep copies: maps, audio bindings, transforms, filter parameters; and the array of items.
use sbs_server.Prelude.{
  ℕ, ◌*◌, ◌<◌, false, Option, none, some, List, [], ◌∷◌, if◌then◌else◌, ◌≡◌, ap,
}
use sbs_server.Prelude.Bytes.{Bytes, codes, str_eq}
use sbs_server.Prelude.Int.{ℤ, pos, rem_ℤ, add_ℕ, mul_ℕ, pos_part, long_to_int32, rem_four}
use sbs_server.Table.{lookup, insert}
use sbs_server.SceneGraph.Types.{
  Double, double_zero, double_one, StrMap, AudioBinding, Transform, Item, Filter,
}
use sbs_server.SceneGraph.Externals.{Externals}

-- The loop of `str_map_copy`.
copy_entries : StrMap → StrMap → StrMap
copy_entries dst [] = dst
copy_entries dst ((k, v) ∷ src) = copy_entries (insert k v dst) src

-- `str_map_copy`
unfoldable pub str_map_copy : Option StrMap → StrMap
unfolding copy_entries
str_map_copy none = []
str_map_copy (some src) = copy_entries [] src

-- `dup_or_null(s ? s : fallback)`
abbrev pub or_default : Option Bytes → Bytes → Bytes
or_default none d = d
or_default (some s) d = s

abbrev zero_binding : AudioBinding
zero_binding = record {
  enabled = false;
  device = none;
  volume = double_zero;
  left_gain = double_zero;
  right_gain = double_zero;
  delay_ms = pos 0;
  eq_bands =
      double_zero ∷ double_zero ∷ double_zero ∷ double_zero ∷ double_zero ∷ double_zero
      ∷ double_zero ∷ double_zero ∷ double_zero ∷ double_zero ∷ [];
  mute = false;
  monitor = false;
}

-- The binding of a new source: zeroed memory, then the three gains at 1.0.
pub new_binding : AudioBinding
new_binding = record zero_binding {
  volume = double_one;
  left_gain = double_one;
  right_gain = double_one;
}

-- `scene_find_item`, and its `*out_index` (counted from 0).
unfoldable pub find_item : Bytes → List Item → Option Item
find_item id [] = none
find_item id (x ∷ xs) = if str_eq x.id id then some x else find_item id xs

-- `g_ptr_array_remove_index` at the index that `scene_find_item` gives.
unfoldable pub remove_first : Bytes → List Item → List Item
remove_first id [] = []
remove_first id (x ∷ xs) = if str_eq x.id id then xs else x ∷ remove_first id xs

-- A write through the pointer that `scene_find_item` gives.
unfoldable pub update_first : Bytes → (Item → Item) → List Item → List Item
update_first id f [] = []
update_first id f (x ∷ xs) = if str_eq x.id id then f x ∷ xs else x ∷ update_first id f xs

-- `filter_array_find`, and the array operations at what it finds.
unfoldable pub find_filter : Bytes → List Filter → Option Filter
find_filter id [] = none
find_filter id (x ∷ xs) = if str_eq x.id id then some x else find_filter id xs

unfoldable pub remove_filter_at : Bytes → List Filter → List Filter
remove_filter_at id [] = []
remove_filter_at id (x ∷ xs) = if str_eq x.id id then xs else x ∷ remove_filter_at id xs

unfoldable pub update_filter_at : Bytes → (Filter → Filter) → List Filter → List Filter
update_filter_at id f [] = []
update_filter_at id f (x ∷ xs) = if str_eq x.id id then f x ∷ xs else x ∷ update_filter_at id f xs

module _ (X : Externals) where
  -- 90.0
  abbrev ninety : Double
  ninety = X.of_int (pos 90)

  -- The quarter turns of `snap_quarter_rotation`, from 0 to 3; the cast keeps 32 bits.
  pub quarter_turns : Double → ℤ
  quarter_turns degrees =
      rem_ℤ (add_ℕ (rem_ℤ (long_to_int32 (X.lround (X.div degrees ninety))) 4) 4) 4

  -- `snap_quarter_rotation`
  pub snap_quarter_rotation : Double → Double
  snap_quarter_rotation degrees = X.of_int (mul_ℕ (quarter_turns degrees) 90)

  -- `filter_params_copy`
  pub filter_params_copy : Bytes → Option StrMap → StrMap
  unfolding snap_quarter_rotation
  filter_params_copy type src =
      let dst = str_map_copy src in
      let degrees : Double = elim (lookup (codes "degrees") dst) [
        | none ↦ ninety
        | some value ↦ X.strtod value
      ] in
      if str_eq type (codes "rotation")
      then insert (codes "degrees") (X.print_rounded (snap_quarter_rotation degrees)) dst
      else dst

  -- `x >= 0.0 ? x : 1.0`
  abbrev non_negative : Double → Double
  non_negative x = if X.ge x double_zero then x else double_one

  -- `audio_binding_copy`
  pub audio_binding_copy : Option AudioBinding → AudioBinding
  audio_binding_copy none = record zero_binding { volume = double_one }
  audio_binding_copy (some src) = record src {
    volume = non_negative src.volume;
    left_gain = non_negative src.left_gain;
    right_gain = non_negative src.right_gain;
  }

  -- `scene_item_transform_copy`
  pub transform_copy : Transform → Transform
  unfolding snap_quarter_rotation
  transform_copy src = record src {
    rotation_deg = snap_quarter_rotation src.rotation_deg;
    bounds_type = some (or_default src.bounds_type (codes "stretch"));
    alignment = some (or_default src.alignment (codes "center"));
    opacity = if X.gt src.opacity double_zero then src.opacity else double_one;
  }

  -- Whatever the angle, the items are turned by 0, 90, 180 or 270 degrees.
  pub snap_quarter_rotation_lem :
      (degrees : Double)
      → (n : ℕ) × (n < 4) × (snap_quarter_rotation degrees ≡ X.of_int (pos (n * 90)))
  unfolding snap_quarter_rotation quarter_turns mul_ℕ
  snap_quarter_rotation_lem degrees =
      let z = long_to_int32 (X.lround (X.div degrees ninety)) in
      let (same, small) = rem_four z in
      (pos_part (rem_ℤ (add_ℕ (rem_ℤ z 4) 4) 4), small, ap (λ r. X.of_int (mul_ℕ r 90)) same)
