-- ===== src/Json/Text.antt =====
-- src/common/cjson_stub.c: JSON values as text.
use sbs_server.Prelude.{ℕ, true, false, Option, [], ◌∷◌, ◌++◌, if◌then◌else◌, ◌==◌}
use sbs_server.Prelude.Bytes.{Bytes, codes}
use sbs_server.Json.{
  Json, Items, Fields, null, bool, num, str, array, object, no_items, item, no_fields, field,
}

-- `snprintf` with "%.17g" of a double, and `strtod`: the double and the text after it, or none if no
-- number stands at the start, as in an empty text.
pub record Doubles : Type 0 where
  pub print : ℕ → Bytes
  pub strtod : Bytes → Option (ℕ × Bytes)

abbrev pub escape : ℕ → Bytes
escape c =
    if c == 34
    then 92 ∷ 34 ∷ []
    else (if c == 92
        then 92 ∷ 92 ∷ []
        else (if c == 10
            then 92 ∷ 110 ∷ []
            else (if c == 13 then 92 ∷ 114 ∷ [] else (if c == 9 then 92 ∷ 116 ∷ [] else c ∷ []))))

-- The characters of `print_string`.
unfoldable pub print_chars : Bytes → Bytes
print_chars [] = []
print_chars (c ∷ s) = escape c ++ print_chars s

-- A string and what is printed after it.
abbrev pub print_string : Bytes → Bytes → Bytes
print_string s later = 34 ∷ (print_chars s ++ (34 ∷ later))

module _ (doubles : Doubles) where
  -- `print_item`, with what is printed after it; the members after the first have a comma before them.
  unfoldable mutual
    pub print_item : Json → Bytes → Bytes
    print_item null later = codes "null" ++ later
    print_item (bool true) later = codes "true" ++ later
    print_item (bool false) later = codes "false" ++ later
    print_item (num n) later = doubles.print n ++ later
    print_item (str s) later = print_string s later
    print_item (array no_items) later = 91 ∷ 93 ∷ later
    print_item (array (item j js)) later = 91 ∷ print_item j (print_items js later)
    print_item (object no_fields) later = 123 ∷ 125 ∷ later
    print_item (object (field k j fs)) later =
        123 ∷ print_string k (58 ∷ print_item j (print_fields fs later))

    pub print_items : Items → Bytes → Bytes
    print_items no_items later = 93 ∷ later
    print_items (item j js) later = 44 ∷ print_item j (print_items js later)

    pub print_fields : Fields → Bytes → Bytes
    print_fields no_fields later = 125 ∷ later
    print_fields (field k j fs) later =
        44 ∷ print_string k (58 ∷ print_item j (print_fields fs later))

  -- `cJSON_PrintUnformatted`
  abbrev pub print_unformatted : Json → Bytes
  print_unformatted j = print_item j []
