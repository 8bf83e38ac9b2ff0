-- ===== src/Json/Left.antt =====
-- What is left of a text after a value, the members of an array or those of an object are read.
use sbs_server.Prelude.{ℕ, zero, suc, ◌≤◌, ◌<◌, false, Option, none, some, length, arith}
use sbs_server.Prelude.Bytes.{Bytes}
use sbs_server.Json.{Items, Fields, no_items, no_fields}
use sbs_server.Json.Text.{Doubles}
use sbs_server.Json.Parse.{
  skip_ws, Start, object_at, array_at, string_at, other_at, Follow, closed, more, wrong, follow,
  Read, as_array, as_object, read_value, more_items, more_fields, read_items, read_field,
  read_fields, parse_value, parse_items, parse_fields,
}
use sbs_server.Json.Rest.{
  Leaves, FollowLeaves, StartLeaves, Leaves-mono, skip_ws-length, follow-Leaves, start_of-Leaves,
  parse_chars-Leaves, parse_key-Leaves, parse_other-Leaves, as_string-Leaves, as_array-Leaves,
  as_object-Leaves, with_item-Leaves, with_field-Leaves,
}

-- `strtod` gives back a text that is no longer.
abbrev pub IsReader : Doubles → Type 0
IsReader doubles = (s : Bytes) → Leaves (length s) (doubles.strtod s)

module _ (doubles : Doubles) (reader : IsReader doubles) where
  -- The readers of members leave no more than they were given.
  abbrev Reads : {A : Type 0} → (Bytes → Option (A × Bytes)) → Type 0
  Reads read = (s : Bytes) → Leaves (length s) (read s)

  more_items-Leaves :
      (items : Bytes → Option (Items × Bytes)) (l : ℕ) (f : Follow)
      → Reads items
      → FollowLeaves l f
      → Leaves l (more_items items f)
  unfolding more_items
  more_items-Leaves items l (closed s) r h = omega (arith, h)
  more_items-Leaves items l (more s) r h =
      Leaves-mono (length (skip_ws s)) l _ (omega (arith, h, skip_ws-length s)) (r (skip_ws s))
  more_items-Leaves items l wrong r h = tt

  more_fields-Leaves :
      (fields : Bytes → Option (Fields × Bytes)) (l : ℕ) (f : Follow)
      → Reads fields
      → FollowLeaves l f
      → Leaves l (more_fields fields f)
  unfolding more_fields
  more_fields-Leaves fields l (closed s) r h = omega (arith, h)
  more_fields-Leaves fields l (more s) r h =
      Leaves-mono (length (skip_ws s)) l _ (omega (arith, h, skip_ws-length s)) (r (skip_ws s))
  more_fields-Leaves fields l wrong r h = tt

  read_items-Leaves :
      (items : Bytes → Option (Items × Bytes)) (l : ℕ) (o : Read)
      → Reads items
      → Leaves l o
      → Leaves l (read_items items o)
  unfolding read_items
  read_items-Leaves items l none r h = tt
  read_items-Leaves items l (some (j, s)) r h = with_item-Leaves j l _ (
      Leaves-mono (length (skip_ws s)) l _ (omega (arith, h, skip_ws-length s))
        (more_items-Leaves items (length (skip_ws s)) _ r (follow-Leaves 93 (skip_ws s))))

  read_field-Leaves :
      (fields : Bytes → Option (Fields × Bytes)) (key : Bytes) (l : ℕ) (o : Read)
      → Reads fields
      → Leaves l o
      → Leaves l (read_field fields key o)
  unfolding read_field
  read_field-Leaves fields key l none r h = tt
  read_field-Leaves fields key l (some (j, s)) r h = with_field-Leaves key j l _ (
      Leaves-mono (length (skip_ws s)) l _ (omega (arith, h, skip_ws-length s))
        (more_fields-Leaves fields (length (skip_ws s)) _ r (follow-Leaves 125 (skip_ws s))))

  read_fields-Leaves :
      (value : Bytes → Read) (fields : Bytes → Option (Fields × Bytes)) (l : ℕ)
      (o : Option (Bytes × Bytes))
      → Reads value
      → Reads fields
      → Leaves l o
      → Leaves l (read_fields value fields o)
  unfolding read_fields
  read_fields-Leaves value fields l none v r h = tt
  read_fields-Leaves value fields l (some (key, s)) v r h =
      read_field-Leaves fields key l (value s) r (Leaves-mono (length s) l _ h (v s))

  object-Leaves :
      (fields : Bytes → Option (Fields × Bytes)) (l : ℕ) (s : Bytes) (f : Follow)
      → Reads fields
      → length s ≤ l
      → FollowLeaves l f
      → Leaves l (as_object (elim f [ closed rest ↦ some (no_fields, rest) | _ ↦ fields s ]))
  object-Leaves fields l s (closed rest) r h k = omega (arith, k)
  object-Leaves fields l s (more rest) r h k =
      as_object-Leaves l (fields s) (Leaves-mono (length s) l _ h (r s))
  object-Leaves fields l s wrong r h k =
      as_object-Leaves l (fields s) (Leaves-mono (length s) l _ h (r s))

  array-Leaves :
      (items : Bytes → Option (Items × Bytes)) (l : ℕ) (s : Bytes) (f : Follow)
      → Reads items
      → length s ≤ l
      → FollowLeaves l f
      → Leaves l (as_array (elim f [ closed rest ↦ some (no_items, rest) | _ ↦ items s ]))
  array-Leaves items l s (closed rest) r h k = omega (arith, k)
  array-Leaves items l s (more rest) r h k =
      as_array-Leaves l (items s) (Leaves-mono (length s) l _ h (r s))
  array-Leaves items l s wrong r h k =
      as_array-Leaves l (items s) (Leaves-mono (length s) l _ h (r s))

  pub FollowLeaves-mono : (k l : ℕ) (f : Follow) → k ≤ l → FollowLeaves k f → FollowLeaves l f
  FollowLeaves-mono k l (closed s) h r = omega (arith, h, r)
  FollowLeaves-mono k l (more s) h r = omega (arith, h, r)
  FollowLeaves-mono k l wrong h r = tt

  pub skipped-Leaves : (c l : ℕ) (s : Bytes) → length s < l → FollowLeaves l (follow c (skip_ws s))
  skipped-Leaves c l s h =
      FollowLeaves-mono (length (skip_ws s)) l _ (omega (arith, h, skip_ws-length s))
        (follow-Leaves c (skip_ws s))

  read_value-Leaves :
      (items : Bytes → Option (Items × Bytes)) (fields : Bytes → Option (Fields × Bytes)) (l : ℕ)
      (t : Start)
      → Reads items
      → Reads fields
      → StartLeaves l t
      → Leaves l (read_value doubles items fields t)
  unfolding read_value
  read_value-Leaves items fields l (object_at s) i f h =
      object-Leaves fields l (skip_ws s) _ f (omega (arith, h, skip_ws-length s))
        (skipped-Leaves 125 l s h)
  read_value-Leaves items fields l (array_at s) i f h =
      array-Leaves items l (skip_ws s) _ i (omega (arith, h, skip_ws-length s))
        (skipped-Leaves 93 l s h)
  read_value-Leaves items fields l (string_at s) i f h =
      as_string-Leaves l _
        (Leaves-mono (length s) l _ (omega (arith, h)) (parse_chars-Leaves false s))
  read_value-Leaves items fields l (other_at s) i f h =
      Leaves-mono (length s) l _ h (parse_other-Leaves doubles s (reader s))

  mutual
    unfolding parse_value

    pub value_Leaves : (n : ℕ) → Reads (parse_value doubles n)
    value_Leaves zero s = tt
    value_Leaves (suc n) s = Leaves-mono (length (skip_ws s)) (length s) _ (skip_ws-length s) (
        read_value-Leaves (parse_items doubles n) (parse_fields doubles n) (length (skip_ws s)) _
          (items_Leaves n) (fields_Leaves n) (start_of-Leaves (skip_ws s)))

    pub items_Leaves : (n : ℕ) → Reads (parse_items doubles n)
    items_Leaves zero s = tt
    items_Leaves (suc n) s =
        read_items-Leaves (parse_items doubles n) (length s) _ (items_Leaves n) (value_Leaves n s)

    pub fields_Leaves : (n : ℕ) → Reads (parse_fields doubles n)
    fields_Leaves zero s = tt
    fields_Leaves (suc n) s =
        read_fields-Leaves (parse_value doubles n) (parse_fields doubles n) (length s) _
          (value_Leaves n) (fields_Leaves n) (parse_key-Leaves s)
