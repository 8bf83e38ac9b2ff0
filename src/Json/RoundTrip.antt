-- ===== src/Json/RoundTrip.antt =====
-- The calls that `cJSON_Parse` is given are enough for what is printed.
use sbs_server.Prelude.{
  ◌+◌, ◌*◌, ◌≤◌, ◌≡◌, refl, true, false, some, [], ◌∷◌, length, length-append, arith,
}
use sbs_server.Prelude.Bytes.{Bytes}
use sbs_server.Json.{
  Json, Items, Fields, null, bool, num, str, array, object, no_items, item, no_fields, field,
}
use sbs_server.Json.Text.{
  Doubles, print_chars, print_string, print_item, print_items, print_fields, print_unformatted,
}
use sbs_server.Json.Parse.{skip_ws, parse_text}
use sbs_server.Json.Finite.{Finite, FiniteItems, FiniteFields, need, need_items, need_fields}
use sbs_server.Json.Reading.{value_read}

module _ (doubles : Doubles) where
  -- Every call has a character of its own, at least every second one.
  print_chars-length : (s later : Bytes) → length later + 2 ≤ length (print_string s later)
  print_chars-length s later = omega (arith, length-append (print_chars s) (34 ∷ later))

  mutual
    unfolding print_item need Finite

    need_bound :
        (j : Json) (later : Bytes)
        → Finite doubles j
        → need doubles j + 2 * length later ≤ 2 * length (print_item doubles j later)
    need_bound null later f = omega arith
    need_bound (bool true) later f = omega arith
    need_bound (bool false) later f = omega arith
    need_bound (num k) later f = rw (f.printed) (omega (arith, length-append f.others later))
    need_bound (str s) later f = omega (arith, print_chars-length s later)
    need_bound (array no_items) later f = omega arith
    need_bound (array (item j js)) later f =
        omega
          (arith, need_bound j (print_items doubles js later) f.0, need_items_bound js later f.1)
    need_bound (object no_fields) later f = omega arith
    need_bound (object (field k j fs)) later f =
        let rest = print_item doubles j (print_fields doubles fs later) in
        omega (
          arith,
          print_chars-length k (58 ∷ rest),
          need_bound j (print_fields doubles fs later) f.0,
          need_fields_bound fs later f.1,
        )

    need_items_bound :
        (js : Items) (later : Bytes)
        → FiniteItems doubles js
        → need_items doubles js + 2 * length later + 2 ≤ 2 * length (print_items doubles js later)
    need_items_bound no_items later f = omega arith
    need_items_bound (item j js) later f =
        omega
          (arith, need_bound j (print_items doubles js later) f.0, need_items_bound js later f.1)

    need_fields_bound :
        (fs : Fields) (later : Bytes)
        → FiniteFields doubles fs
        → need_fields doubles fs + 2 * length later + 2 ≤ 2 * length (print_fields doubles fs later)
    need_fields_bound no_fields later f = omega arith
    need_fields_bound (field k j fs) later f =
        let rest = print_item doubles j (print_fields doubles fs later) in
        omega (
          arith,
          print_chars-length k (58 ∷ rest),
          need_bound j (print_fields doubles fs later) f.0,
          need_fields_bound fs later f.1,
        )

  -- A value whose numbers `strtod` reads back is printed to a text that is parsed to the same value,
  -- whatever its strings and names hold.
  pub parse_text-print_unformatted :
      (j : Json) → Finite doubles j → parse_text doubles (print_unformatted doubles j) ≡ some j
  unfolding parse_text skip_ws
  parse_text-print_unformatted j f =
      let enough = need_bound j [] f in
      rw
        (value_read doubles j (2 * length (print_unformatted doubles j) + 2) []
          (omega (arith, enough)) f refl)
        refl
