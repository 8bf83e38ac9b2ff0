-- ===== src/Json/Tests.antt =====
-- A concrete value, with a printer and a reader of the one number 0.
use sbs_server.Prelude.{
  Option, [], arith, if_elim, if◌then◌else◌, length, none, refl, some, suc, true, ℕ, ◌==◌, ◌∷◌, ◌≡◌,
}
use sbs_server.Prelude.Bytes.{Bytes, codes}
use sbs_server.Json.{Json, num, str, array, object, bool, null, no_items, item, no_fields, field}
use sbs_server.Json.Text.{Doubles, print_unformatted}
use sbs_server.Json.Parse.{
  parse_text, parse_value, at_end, skip_ws, start_of, parse_chars, parse_key, colon, follow,
  read_value, read_fields, read_field, more_fields,
}
use sbs_server.Json.Finite.{Finite}
use sbs_server.Json.Rest.{Leaves}
use sbs_server.Json.Left.{IsReader}
use sbs_server.Json.Enough.{parse_text_enough}
use sbs_server.Json.RoundTrip.{parse_text-print_unformatted}

abbrev read_zero : Bytes → Option (ℕ × Bytes)
read_zero [] = none
read_zero (c ∷ s) = if c == 48 then some (0, s) else none

abbrev zero_only : Doubles
zero_only = record { print = λ n. 48 ∷ []; strtod = read_zero }

abbrev sample : Json
sample = object (
    field (codes "a") (array (item (num 0) (item (bool true) (item null no_items))))
      (field (34 ∷ 92 ∷ 10 ∷ []) (str (codes "x, y]")) no_fields))

parse_text-print_unformatted_example :
    parse_text zero_only (print_unformatted zero_only sample) ≡ some sample
unfolding Finite
parse_text-print_unformatted_example = parse_text-print_unformatted zero_only sample (
  (
    record { first = 48; others = []; printed = refl; starts = refl; read = λ later h. refl },
    (tt, (tt, tt)),
  ),
  (tt, tt),
)

-- The escape of a code point is read as its letter and digits.
code_point_lost :
    parse_text zero_only (codes "{\"k\":\"\\u0041\"}")
    ≡ some (object (field (codes "k") (str (codes "u0041")) no_fields))
unfolding parse_text parse_value skip_ws start_of parse_chars parse_key colon follow read_value
    read_fields read_field more_fields
code_point_lost = refl

read_zero-IsReader : IsReader zero_only
read_zero-IsReader [] = tt
read_zero-IsReader (c ∷ s) =
    if_elim (Leaves (suc (length s))) (c == 48) (λ _. omega arith) (λ _. tt)

abbrev truncated : Bytes
truncated = codes "[[0,"

parse_text_enough_example :
    parse_text zero_only truncated ≡ at_end zero_only (parse_value zero_only 50 truncated)
parse_text_enough_example =
    parse_text_enough zero_only read_zero-IsReader 50 truncated (omega arith)
