-- ===== src/Json/Reading.antt =====
-- What is printed is read back, with calls enough.
use sbs_server.Prelude.{ℕ, zero, suc, ◌+◌, ◌≤◌, ◌≡◌, refl, ◌∙◌, true, false, some, ◌∷◌, ◌++◌, arith}
use sbs_server.Prelude.Bytes.{Bytes}
use sbs_server.Json.{
  Json, Items, Fields, null, bool, num, str, array, object, no_items, item, no_fields, field,
}
use sbs_server.Json.Text.{Doubles, print_string, print_item, print_items, print_fields}
use sbs_server.Json.Parse.{
  skip_ws, start_of, follow, after_word, parse_key, parse_other, read_value, read_items, read_field,
  read_fields, more_items, more_fields, parse_value, parse_items, parse_fields,
}
use sbs_server.Json.Finite.{
  ends, parse_chars-print_chars, Finite, FiniteItems, FiniteFields, skip_ws-print_item,
  parse_other-num, need, need_items, need_fields, parse_key-print_string, start_of-number,
}

module _ (doubles : Doubles) where
  value_step :
      (n : ℕ) (s : Bytes)
      → parse_value doubles (suc n) s
        ≡ read_value doubles (parse_items doubles n) (parse_fields doubles n) (start_of (skip_ws s))
  unfolding parse_value
  value_step n s = refl

  items_step :
      (n : ℕ) (s : Bytes)
      → parse_items doubles (suc n) s ≡ read_items (parse_items doubles n) (parse_value doubles n s)
  unfolding parse_value
  items_step n s = refl

  fields_step :
      (n : ℕ) (s : Bytes)
      → parse_fields doubles (suc n) s
        ≡ read_fields (parse_value doubles n) (parse_fields doubles n) (parse_key s)
  unfolding parse_value
  fields_step n s = refl

  mutual
    unfolding print_item skip_ws start_of follow parse_other after_word need Finite read_value
        read_items read_field read_fields more_items more_fields

    pub value_read :
        (j : Json) (n : ℕ) (later : Bytes)
        → need doubles j ≤ n
        → Finite doubles j
        → ends later ≡ true
        → parse_value doubles n (print_item doubles j later) ≡ some (j, later)
    value_read null (suc n) later h f e = value_step n _
    value_read (bool true) (suc n) later h f e = value_step n _
    value_read (bool false) (suc n) later h f e = value_step n _
    value_read (num k) (suc n) later h f e = rw (f.printed) (
        value_step n _
        ∙ rw (start_of-number doubles f.first (f.others ++ later) f.starts)
            (parse_other-num doubles k f later e))
    value_read (str s) (suc n) later h f e =
        value_step n _ ∙ rw (parse_chars-print_chars s later) refl
    value_read (array no_items) (suc n) later h f e = value_step n _
    value_read (array (item j js)) (suc n) later h f e =
        let (skipped, unclosed) = skip_ws-print_item doubles j (print_items doubles js later) f.0 in
        value_step n _
        ∙ rw (skipped, unclosed, skipped, items_read j js n later (omega (arith, h)) f.0 f.1) refl
    value_read (object no_fields) (suc n) later h f e = value_step n _
    value_read (object (field k j fs)) (suc n) later h f e =
        value_step n _ ∙ rw (fields_read k j fs n later (omega (arith, h)) f.0 f.1) refl
    value_read null zero later h f e = absurd (omega (arith, h))
    value_read (bool b) zero later h f e = absurd (omega (arith, h))
    value_read (num k) zero later h f e = absurd (omega (arith, h))
    value_read (str s) zero later h f e = absurd (omega (arith, h))
    value_read (array js) zero later h f e = absurd (omega (arith, h))
    value_read (object fs) zero later h f e = absurd (omega (arith, h))

    items_read :
        (j : Json) (js : Items) (n : ℕ) (later : Bytes)
        → 1 + (need doubles j + need_items doubles js) ≤ n
        → Finite doubles j
        → FiniteItems doubles js
        → parse_items doubles n (print_item doubles j (print_items doubles js later))
          ≡ some (item j js, later)
    items_read j js zero later h f fs = absurd (omega (arith, h))
    items_read j no_items (suc n) later h f fs =
        items_step n _ ∙ rw (value_read j n (93 ∷ later) (omega (arith, h)) f refl) refl
    items_read j (item k ks) (suc n) later h f fs =
        items_step n _
        ∙ rw
            (
              value_read j n (print_items doubles (item k ks) later) (omega (arith, h)) f refl,
              (skip_ws-print_item doubles k (print_items doubles ks later) fs.0).0,
              items_read k ks n later (omega (arith, h)) fs.0 fs.1,
            )
            refl

    fields_read :
        (k : Bytes) (j : Json) (fs : Fields) (n : ℕ) (later : Bytes)
        → 1 + (need doubles j + need_fields doubles fs) ≤ n
        → Finite doubles j
        → FiniteFields doubles fs
        → parse_fields doubles n
            (print_string k (58 ∷ print_item doubles j (print_fields doubles fs later)))
          ≡ some (field k j fs, later)
    fields_read k j fs zero later h f g = absurd (omega (arith, h))
    fields_read k j no_fields (suc n) later h f g =
        fields_step n _
        ∙ rw
            (
              parse_key-print_string doubles k (print_item doubles j (125 ∷ later)),
              (skip_ws-print_item doubles j (125 ∷ later) f).0,
              value_read j n (125 ∷ later) (omega (arith, h)) f refl,
            )
            refl
    fields_read k j (field l i is) (suc n) later h f g =
        let rest = print_fields doubles (field l i is) later in
        fields_step n _
        ∙ rw
            (
              parse_key-print_string doubles k (print_item doubles j rest),
              (skip_ws-print_item doubles j rest f).0,
              value_read j n rest (omega (arith, h)) f refl,
              fields_read l i is n later (omega (arith, h)) g.0 g.1,
            )
            refl
