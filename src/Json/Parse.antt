-- ===== src/Json/Parse.antt =====
-- src/common/cjson_stub.c: the reader of JSON text.
use sbs_server.Prelude.{
  ℕ, zero, suc, ◌+◌, ◌*◌, Bool, true, false, ◌||◌, Option, none, some, [], ◌∷◌, if◌then◌else◌, ◌==◌,
  length,
}
use sbs_server.Prelude.Bytes.{Bytes, codes}
use sbs_server.Json.{
  Json, Items, Fields, null, bool, num, str, array, object, no_items, item, no_fields, field,
}
use sbs_server.Json.Text.{Doubles}

-- `isspace` in the C locale
abbrev pub is_space : ℕ → Bool
is_space c = (c == 32) || ((c == 9) || ((c == 10) || ((c == 11) || ((c == 12) || (c == 13)))))

unfoldable pub skip_ws : Bytes → Bytes
skip_ws [] = []
skip_ws (c ∷ s) = let rest = skip_ws s in if is_space c then rest else c ∷ s

-- What a character is to the reader of a string.
pub data Mark : Type 0 where
  quote backslash plain : Mark

abbrev pub mark : ℕ → Mark
mark c = if c == 34 then quote else (if c == 92 then backslash else plain)

-- The character that stands for `\c`.
abbrev pub unescape : ℕ → ℕ
unescape c =
    if c == 98
    then 8
    else (if c == 102
        then 12
        else (if c == 110 then 10 else (if c == 114 then 13 else (if c == 116 then 9 else c))))

abbrev pub prepend : ℕ → Option (Bytes × Bytes) → Option (Bytes × Bytes)
prepend c none = none
prepend c (some (s, rest)) = some (c ∷ s, rest)

-- The loop of `parse_string_token`, within an escape or not: the string, and the text after the quote
-- that ends it.
unfoldable pub parse_chars : Bool → Bytes → Option (Bytes × Bytes)
parse_chars escaped [] = none
parse_chars true (c ∷ s) = prepend (unescape c) (parse_chars false s)
parse_chars false (c ∷ s) = elim (mark c) [
  | quote ↦ some ([], s)
  | backslash ↦ parse_chars true s
  | plain ↦ prepend c (parse_chars false s)
]

-- What a value starts with, and the text after its first character.
pub data Start : Type 0 where
  object_at : Bytes → Start
  array_at : Bytes → Start
  string_at : Bytes → Start
  other_at : Bytes → Start

unfoldable pub start_of : Bytes → Start
start_of [] = other_at []
start_of (c ∷ s) =
    if c == 123
    then object_at s
    else (if c == 91 then array_at s else (if c == 34 then string_at s else other_at (c ∷ s)))

-- What follows a member: the end, or a comma, and the text after it.
pub data Follow : Type 0 where
  closed : Bytes → Follow
  more : Bytes → Follow
  wrong : Follow

unfoldable pub follow : ℕ → Bytes → Follow
follow close [] = wrong
follow close (c ∷ s) = if c == close then closed s else (if c == 44 then more s else wrong)

-- `!strncmp(s, word, strlen(word))`: the text after the word.
unfoldable pub after_word : Bytes → Bytes → Option Bytes
after_word [] s = some s
after_word (c ∷ word) [] = none
after_word (c ∷ word) (d ∷ s) = let rest = after_word word s in if c == d then rest else none

abbrev pub Read : Type 0
Read = Option (Json × Bytes)

abbrev pub as_string : Option (Bytes × Bytes) → Read
as_string none = none
as_string (some (s, rest)) = some (str s, rest)

abbrev pub as_number : Option (ℕ × Bytes) → Read
as_number none = none
as_number (some (n, rest)) = some (num n, rest)

abbrev pub as_word : Json → Option Bytes → Read → Read
as_word j none otherwise = otherwise
as_word j (some rest) otherwise = some (j, rest)

abbrev pub as_array : Option (Items × Bytes) → Read
as_array none = none
as_array (some (js, rest)) = some (array js, rest)

abbrev pub as_object : Option (Fields × Bytes) → Read
as_object none = none
as_object (some (fs, rest)) = some (object fs, rest)

abbrev pub with_item : Json → Option (Items × Bytes) → Option (Items × Bytes)
with_item j none = none
with_item j (some (js, rest)) = some (item j js, rest)

abbrev pub with_field : Bytes → Json → Option (Fields × Bytes) → Option (Fields × Bytes)
with_field k j none = none
with_field k j (some (fs, rest)) = some (field k j fs, rest)

-- The text after the colon of a member.
unfoldable pub colon : Bytes → Option Bytes
colon [] = none
colon (c ∷ s) = if c == 58 then some (skip_ws s) else none

abbrev pub key_and_rest : Bytes → Option Bytes → Option (Bytes × Bytes)
key_and_rest key none = none
key_and_rest key (some rest) = some (key, rest)

abbrev pub key_end : Option (Bytes × Bytes) → Option (Bytes × Bytes)
key_end none = none
key_end (some (key, s)) = key_and_rest key (colon (skip_ws s))

-- A key with its quotes and the colon after it: `*s != '"'` refuses any other text.
abbrev pub key_at : Start → Option (Bytes × Bytes)
key_at (string_at s) = key_end (parse_chars false s)
key_at _ = none

unfoldable pub parse_key : Bytes → Option (Bytes × Bytes)
parse_key s = key_at (start_of s)

-- The members after the first.
unfoldable pub more_items : (Bytes → Option (Items × Bytes)) → Follow → Option (Items × Bytes)
more_items items (closed rest) = some (no_items, rest)
more_items items (more rest) = items (skip_ws rest)
more_items items wrong = none

unfoldable pub more_fields : (Bytes → Option (Fields × Bytes)) → Follow → Option (Fields × Bytes)
more_fields fields (closed rest) = some (no_fields, rest)
more_fields fields (more rest) = fields (skip_ws rest)
more_fields fields wrong = none

unfoldable pub read_items : (Bytes → Option (Items × Bytes)) → Read → Option (Items × Bytes)
read_items items none = none
read_items items (some (j, s)) = with_item j (more_items items (follow 93 (skip_ws s)))

unfoldable pub read_field :
    (Bytes → Option (Fields × Bytes)) → Bytes → Read → Option (Fields × Bytes)
read_field fields key none = none
read_field fields key (some (j, s)) = with_field key j (more_fields fields (follow 125 (skip_ws s)))

unfoldable pub read_fields :
    (Bytes → Read)
    → (Bytes → Option (Fields × Bytes))
    → Option (Bytes × Bytes)
    → Option (Fields × Bytes)
read_fields value fields none = none
read_fields value fields (some (key, s)) = read_field fields key (value s)

module _ (doubles : Doubles) where
  unfoldable pub parse_other : Bytes → Read
  parse_other [] = none
  parse_other (c ∷ s) = as_word (bool true) (after_word (codes "true") (c ∷ s)) (
      as_word (bool false) (after_word (codes "false") (c ∷ s))
        (as_word null (after_word (codes "null") (c ∷ s)) (as_number (doubles.strtod (c ∷ s)))))

  -- A value by what it starts with; `items` and `fields` read the members of an array and an object.
  unfoldable pub read_value :
      (Bytes → Option (Items × Bytes)) → (Bytes → Option (Fields × Bytes)) → Start → Read
  read_value items fields (object_at s) = as_object (elim (follow 125 (skip_ws s)) [
    | closed rest ↦ some (no_fields, rest)
    | _ ↦ fields (skip_ws s)
  ])
  read_value items fields (array_at s) =
      as_array (elim (follow 93 (skip_ws s)) [
        | closed rest ↦ some (no_items, rest)
        | _ ↦ items (skip_ws s)
      ])
  read_value items fields (string_at s) = as_string (parse_chars false s)
  read_value items fields (other_at s) = parse_other s

  -- The calls of `parse_value`, and the members of arrays and objects, are counted down: each is with a
  -- text that is shorter than that of the call before the last.
  unfoldable mutual
    pub parse_value : ℕ → Bytes → Read
    parse_value zero s = none
    parse_value (suc n) s = read_value (parse_items n) (parse_fields n) (start_of (skip_ws s))

    pub parse_items : ℕ → Bytes → Option (Items × Bytes)
    parse_items zero s = none
    parse_items (suc n) s = read_items (parse_items n) (parse_value n s)

    pub parse_fields : ℕ → Bytes → Option (Fields × Bytes)
    parse_fields zero s = none
    parse_fields (suc n) s = read_fields (parse_value n) (parse_fields n) (parse_key s)

  abbrev pub at_end : Read → Option Json
  at_end none = none
  at_end (some (j, s)) = elim (skip_ws s) [ [] ↦ some j | _ ↦ none ]

  -- `cJSON_Parse`
  unfoldable pub parse_text : Bytes → Option Json
  parse_text text = at_end (parse_value (2 * length text + 2) text)
