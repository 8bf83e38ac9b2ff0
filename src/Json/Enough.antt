-- ===== src/Json/Enough.antt =====
-- More calls than the reader of JSON is given change nothing, whatever the text.
use sbs_server.Prelude.{
  ℕ, zero, suc, ◌+◌, ◌*◌, ◌≤◌, ◌<◌, ◌≡◌, refl, ap, ◌∙◌, Option, none, some, length, arith,
}
use sbs_server.Prelude.Bytes.{Bytes}
use sbs_server.Json.{Items, Fields, no_items, no_fields}
use sbs_server.Json.Text.{Doubles}
use sbs_server.Json.Parse.{
  skip_ws, Start, object_at, array_at, string_at, other_at, Follow, closed, more, wrong, parse_key,
  Read, as_array, as_object, with_item, with_field, read_value, more_items, more_fields, read_items,
  read_field, read_fields, parse_value, parse_items, parse_fields, parse_text, at_end,
}
use sbs_server.Json.Rest.{
  Leaves, FollowLeaves, StartLeaves, Leaves-mono, follow-Leaves, skip_ws-length, start_of-Leaves,
  parse_key-Leaves,
}
use sbs_server.Json.Left.{IsReader, value_Leaves}

-- Two readers give the same for all texts shorter than `l`.
abbrev Agree : {A : Type 0} → ℕ → (Bytes → Option A) → (Bytes → Option A) → Type 0
Agree l f g = (s : Bytes) → length s < l → f s ≡ g s

skip-Agree :
    {A : Type 0} (l : ℕ) (f g : Bytes → Option A) (s : Bytes)
    → Agree l f g
    → length s < l
    → f (skip_ws s) ≡ g (skip_ws s)
skip-Agree l f g s a h = a (skip_ws s) (omega (arith, h, skip_ws-length s))

items-first :
    (f g : Bytes → Option (Items × Bytes)) (s : Bytes) (x : Follow)
    → f s ≡ g s
    → as_array (elim x [ closed rest ↦ some (no_items, rest) | _ ↦ f s ])
      ≡ as_array (elim x [ closed rest ↦ some (no_items, rest) | _ ↦ g s ])
items-first f g s (closed rest) e = refl
items-first f g s (more rest) e = ap as_array e
items-first f g s wrong e = ap as_array e

fields-first :
    (f g : Bytes → Option (Fields × Bytes)) (s : Bytes) (x : Follow)
    → f s ≡ g s
    → as_object (elim x [ closed rest ↦ some (no_fields, rest) | _ ↦ f s ])
      ≡ as_object (elim x [ closed rest ↦ some (no_fields, rest) | _ ↦ g s ])
fields-first f g s (closed rest) e = refl
fields-first f g s (more rest) e = ap as_object e
fields-first f g s wrong e = ap as_object e

more_items-Agree :
    (l : ℕ) (f g : Bytes → Option (Items × Bytes)) (x : Follow)
    → Agree l f g
    → FollowLeaves l x
    → more_items f x ≡ more_items g x
unfolding more_items
more_items-Agree l f g (closed s) a h = refl
more_items-Agree l f g (more s) a h = skip-Agree l f g s a h
more_items-Agree l f g wrong a h = refl

more_fields-Agree :
    (l : ℕ) (f g : Bytes → Option (Fields × Bytes)) (x : Follow)
    → Agree l f g
    → FollowLeaves l x
    → more_fields f x ≡ more_fields g x
unfolding more_fields
more_fields-Agree l f g (closed s) a h = refl
more_fields-Agree l f g (more s) a h = skip-Agree l f g s a h
more_fields-Agree l f g wrong a h = refl

module _ (doubles : Doubles) (reader : IsReader doubles) where
  read_value-Agree :
      (l : ℕ) (i j : Bytes → Option (Items × Bytes)) (f g : Bytes → Option (Fields × Bytes))
      (t : Start)
      → Agree l i j
      → Agree l f g
      → StartLeaves l t
      → read_value doubles i f t ≡ read_value doubles j g t
  unfolding read_value
  read_value-Agree l i j f g (object_at s) a b h =
      fields-first f g (skip_ws s) _ (skip-Agree l f g s b h)
  read_value-Agree l i j f g (array_at s) a b h =
      items-first i j (skip_ws s) _ (skip-Agree l i j s a h)
  read_value-Agree l i j f g (string_at s) a b h = refl
  read_value-Agree l i j f g (other_at s) a b h = refl

  read_items-Agree :
      (l : ℕ) (f g : Bytes → Option (Items × Bytes)) (o : Read)
      → Agree l f g
      → Leaves l o
      → read_items f o ≡ read_items g o
  unfolding read_items
  read_items-Agree l f g none a h = refl
  read_items-Agree l f g (some (j, s)) a h = ap (with_item j) (
      more_items-Agree (length (skip_ws s)) f g _
        (λ t k. a t (omega (arith, k, h, skip_ws-length s))) (follow-Leaves 93 (skip_ws s)))

  read_field-Agree :
      (l : ℕ) (f g : Bytes → Option (Fields × Bytes)) (key : Bytes) (o : Read)
      → Agree l f g
      → Leaves l o
      → read_field f key o ≡ read_field g key o
  unfolding read_field
  read_field-Agree l f g key none a h = refl
  read_field-Agree l f g key (some (j, s)) a h = ap (with_field key j) (
      more_fields-Agree (length (skip_ws s)) f g _
        (λ t k. a t (omega (arith, k, h, skip_ws-length s))) (follow-Leaves 125 (skip_ws s)))

  read_fields-Agree :
      (l : ℕ) (v w : Bytes → Read) (f g : Bytes → Option (Fields × Bytes))
      (o : Option (Bytes × Bytes))
      → Agree (suc l) v w
      → ((s : Bytes) → Leaves (length s) (v s))
      → Agree l f g
      → Leaves l o
      → read_fields v f o ≡ read_fields w g o
  unfolding read_fields
  read_fields-Agree l v w f g none b r a h = refl
  read_fields-Agree l v w f g (some (key, s)) b r a h =
      read_field-Agree l f g key (v s) a (Leaves-mono (length s) l _ h (r s))
      ∙ ap (read_field g key) (b s (omega (arith, h)))

  mutual
    unfolding parse_value

    value_enough :
        (n m : ℕ) (s : Bytes)
        → 2 * length s + 2 ≤ n
        → 2 * length s + 2 ≤ m
        → parse_value doubles n s ≡ parse_value doubles m s
    value_enough zero m s h k = absurd (omega (arith, h))
    value_enough (suc n) zero s h k = absurd (omega (arith, k))
    value_enough (suc n) (suc m) s h k =
        read_value-Agree (length (skip_ws s)) _ _ _ _ _
          (λ t e.
            items_enough n m t (omega (arith, e, h, skip_ws-length s))
              (omega (arith, e, k, skip_ws-length s)))
          (λ t e.
            fields_enough n m t (omega (arith, e, h, skip_ws-length s))
              (omega (arith, e, k, skip_ws-length s)))
          (start_of-Leaves (skip_ws s))

    items_enough :
        (n m : ℕ) (s : Bytes)
        → 2 * length s + 3 ≤ n
        → 2 * length s + 3 ≤ m
        → parse_items doubles n s ≡ parse_items doubles m s
    items_enough zero m s h k = absurd (omega (arith, h))
    items_enough (suc n) zero s h k = absurd (omega (arith, k))
    items_enough (suc n) (suc m) s h k =
        read_items-Agree (length s) _ _ _
          (λ t e. items_enough n m t (omega (arith, e, h)) (omega (arith, e, k)))
          (value_Leaves doubles reader n s)
        ∙ ap (read_items (parse_items doubles m))
            (value_enough n m s (omega (arith, h)) (omega (arith, k)))

    fields_enough :
        (n m : ℕ) (s : Bytes)
        → 2 * length s + 3 ≤ n
        → 2 * length s + 3 ≤ m
        → parse_fields doubles n s ≡ parse_fields doubles m s
    fields_enough zero m s h k = absurd (omega (arith, h))
    fields_enough (suc n) zero s h k = absurd (omega (arith, k))
    fields_enough (suc n) (suc m) s h k =
        read_fields-Agree (length s) _ _ _ _ (parse_key s)
          (λ t e. value_enough n m t (omega (arith, e, h)) (omega (arith, e, k)))
          (value_Leaves doubles reader n)
          (λ t e. fields_enough n m t (omega (arith, e, h)) (omega (arith, e, k)))
          (parse_key-Leaves s)

  -- If `strtod` gives back no text that is longer than the one it was given, more calls than
  -- `cJSON_Parse` is given change nothing of its result, whatever the text.
  pub parse_text_enough :
      (n : ℕ) (text : Bytes)
      → 2 * length text + 2 ≤ n
      → parse_text doubles text ≡ at_end doubles (parse_value doubles n text)
  unfolding parse_text
  parse_text_enough n text h =
      ap (at_end doubles) (value_enough (2 * length text + 2) n text (omega arith) h)
