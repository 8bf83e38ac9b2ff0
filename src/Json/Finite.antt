-- ===== src/Json/Finite.antt =====
-- Values whose numbers can be read back, and what their texts start with.
use mathlib.Core.List.{append_assoc}
use sbs_server.Prelude.{
  ℕ, ◌+◌, ◌≡◌, refl, ap, ◌∙◌, Bool, true, false, ◌||◌, some, [], ◌∷◌, ◌++◌, ◌==◌, arith,
}
use sbs_server.Prelude.Bytes.{Bytes}
use sbs_server.Json.{
  Json, Items, Fields, null, bool, num, str, array, object, no_items, item, no_fields, field,
}
use sbs_server.Json.Text.{
  Doubles, escape, print_chars, print_string, print_item, print_items, print_fields,
}
use sbs_server.Json.Parse.{
  skip_ws, prepend, parse_chars, other_at, start_of, follow, wrong, after_word, colon, parse_key,
  parse_other,
}

-- A character that a printed number can start with.
abbrev pub starts_number : ℕ → Bool
starts_number c =
    (c == 45)
    || ((c == 48)
        || ((c == 49)
            || ((c == 50)
                || ((c == 51)
                    || ((c == 52)
                        || ((c == 53)
                            || ((c == 54) || ((c == 55) || ((c == 56) || (c == 57))))))))))

-- A text that can follow a printed value.
abbrev pub ends : Bytes → Bool
ends [] = true
ends (c ∷ s) = (c == 44) || ((c == 93) || (c == 125))

escape-parse :
    (c : ℕ) (s : Bytes) → parse_chars false (escape c ++ s) ≡ prepend c (parse_chars false s)
unfolding parse_chars
escape-parse c s = ground arith

-- Every string is read back, whatever stands in it.
pub parse_chars-print_chars :
    (s later : Bytes) → parse_chars false (print_chars s ++ (34 ∷ later)) ≡ some (s, later)
unfolding print_chars
parse_chars-print_chars [] later = unfold parse_chars in refl
parse_chars-print_chars (c ∷ s) later = rw (append_assoc (escape c) (print_chars s) (34 ∷ later)) (
    escape-parse c (print_chars s ++ (34 ∷ later))
    ∙ ap (prepend c) (parse_chars-print_chars s later))

module _ (doubles : Doubles) where
  -- A double whose printed text `strtod` reads back, as "%.17g" makes it for every finite double.
  pub record IsFinite (n : ℕ) : Type 0 where
    pub first : ℕ
    pub others : Bytes
    pub printed : doubles.print n ≡ first ∷ others
    pub starts : starts_number first ≡ true
    pub read :
        (later : Bytes)
        → ends later ≡ true
        → doubles.strtod (first ∷ (others ++ later)) ≡ some (n, later)

  -- Every number in a value is finite.
  unfoldable mutual
    pub Finite : Json → Type 0
    Finite (num n) = IsFinite n
    Finite (array js) = FiniteItems js
    Finite (object fs) = FiniteFields fs
    Finite _ = Unit

    pub FiniteItems : Items → Type 0
    FiniteItems no_items = Unit
    FiniteItems (item j js) = Finite j × FiniteItems js

    pub FiniteFields : Fields → Type 0
    FiniteFields no_fields = Unit
    FiniteFields (field k j fs) = Finite j × FiniteFields fs

  -- The first character of a printed value: no space, and nothing that ends a list.
  unfoldable pub starts_value : ℕ → Bool
  starts_value c =
      starts_number c
      || ((c == 34) || ((c == 91) || ((c == 123) || ((c == 102) || ((c == 110) || (c == 116))))))

  pub print_item-starts :
      (j : Json) (later : Bytes)
      → Finite j
      → (c : ℕ) × ((s : Bytes) × ((print_item doubles j later ≡ c ∷ s) × (starts_value c ≡ true)))
  unfolding print_item starts_value Finite
  print_item-starts null later f = (110, (_, (refl, refl)))
  print_item-starts (bool true) later f = (116, (_, (refl, refl)))
  print_item-starts (bool false) later f = (102, (_, (refl, refl)))
  print_item-starts (num n) later f =
      (f.first, (f.others ++ later, (rw (f.printed) refl, rw (f.starts) refl)))
  print_item-starts (str s) later f = (34, (_, (refl, refl)))
  print_item-starts (array no_items) later f = (91, (_, (refl, refl)))
  print_item-starts (array (item j js)) later f = (91, (_, (refl, refl)))
  print_item-starts (object no_fields) later f = (123, (_, (refl, refl)))
  print_item-starts (object (field k j fs)) later f = (123, (_, (refl, refl)))

  -- No space is skipped before a printed value, and no end of a list is seen there.
  pub skip_ws-print_item :
      (j : Json) (later : Bytes)
      → Finite j
      → (skip_ws (print_item doubles j later) ≡ print_item doubles j later)
        × (follow 93 (print_item doubles j later) ≡ wrong)
  unfolding skip_ws follow starts_value
  skip_ws-print_item j later f =
      let (c, (s, (e, start))) = print_item-starts j later f in
      rw (e) (ground (arith, start), ground (arith, start))

  pub parse_other-num :
      (n : ℕ) (f : IsFinite n) (later : Bytes)
      → ends later ≡ true
      → parse_other doubles (f.first ∷ (f.others ++ later)) ≡ some (num n, later)
  unfolding parse_other after_word
  parse_other-num n f later h =
      let t : (116 == f.first) ≡ false = ground (arith, f.starts) in
      let b : (102 == f.first) ≡ false = ground (arith, f.starts) in
      let z : (110 == f.first) ≡ false = ground (arith, f.starts) in
      rw (t, b, z, f.read later h) refl

  -- The calls that reading a value takes, at most.
  unfoldable mutual
    pub need : Json → ℕ
    need (array js) = 1 + need_items js
    need (object fs) = 1 + need_fields fs
    need _ = 1

    pub need_items : Items → ℕ
    need_items no_items = 0
    need_items (item j js) = 1 + (need j + need_items js)

    pub need_fields : Fields → ℕ
    need_fields no_fields = 0
    need_fields (field k j fs) = 1 + (need j + need_fields fs)

  pub parse_key-print_string :
      (k later : Bytes) → parse_key (print_string k (58 ∷ later)) ≡ some (k, skip_ws later)
  unfolding parse_key start_of colon skip_ws
  parse_key-print_string k later = rw (parse_chars-print_chars k (58 ∷ later)) refl

  pub ends-print_items : (js : Items) (later : Bytes) → ends (print_items doubles js later) ≡ true
  unfolding print_item
  ends-print_items no_items later = refl
  ends-print_items (item j js) later = refl

  ends-print_fields : (fs : Fields) (later : Bytes) → ends (print_fields doubles fs later) ≡ true
  unfolding print_item
  ends-print_fields no_fields later = refl
  ends-print_fields (field k j fs) later = refl

  pub start_of-number :
      (c : ℕ) (s : Bytes) → starts_number c ≡ true → start_of (skip_ws (c ∷ s)) ≡ other_at (c ∷ s)
  unfolding start_of skip_ws
  start_of-number c s h = ground (arith, h)
