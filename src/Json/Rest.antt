-- ===== src/Json/Rest.antt =====
-- The reader of JSON gives back a text that is no longer than the one it was given.
use sbs_server.Prelude.{
  ℕ, suc, ◌≤◌, ◌<◌, ◌≡◌, refl, Bool, true, false, Option, none, some, [], ◌∷◌, ◌==◌, length,
  Bool-cases, inl, inr, if_elim, Option-cases, sym, ◌∙◌, arith,
}
use sbs_server.Prelude.Bytes.{Bytes, codes}
use sbs_server.Json.{Json, Items, Fields, null, bool}
use sbs_server.Json.Text.{Doubles}
use sbs_server.Json.Parse.{
  skip_ws, quote, backslash, plain, mark, unescape, prepend, parse_chars, Start, object_at,
  array_at, string_at, other_at, start_of, Follow, closed, more, wrong, follow, after_word, colon,
  key_and_rest, key_end, key_at, parse_key, Read, as_string, as_number, as_word, as_array,
  as_object, with_item, with_field, parse_other,
}

-- What was read, if anything, left a text of at most a length.
abbrev pub Leaves : {A : Type 0} → ℕ → Option (A × Bytes) → Type 0
Leaves l none = Unit
Leaves l (some r) = length r.1 ≤ l

abbrev pub FollowLeaves : ℕ → Follow → Type 0
FollowLeaves l (closed s) = length s < l
FollowLeaves l (more s) = length s < l
FollowLeaves l wrong = Unit

abbrev pub StartLeaves : ℕ → Start → Type 0
StartLeaves l (object_at s) = length s < l
StartLeaves l (array_at s) = length s < l
StartLeaves l (string_at s) = length s < l
StartLeaves l (other_at s) = length s ≤ l

pub Leaves-mono : {A : Type 0} (k l : ℕ) (o : Option (A × Bytes)) → k ≤ l → Leaves k o → Leaves l o
Leaves-mono k l none h r = tt
Leaves-mono k l (some x) h r = omega (arith, h, r)

pub skip_ws-length : (s : Bytes) → length (skip_ws s) ≤ length s
unfolding skip_ws
skip_ws-length [] = omega arith
skip_ws-length (c ∷ s) = ground (arith, skip_ws-length s)

pub follow-Leaves : (c : ℕ) (s : Bytes) → FollowLeaves (length s) (follow c s)
unfolding follow
follow-Leaves c [] = tt
follow-Leaves c (d ∷ s) =
    if_elim (FollowLeaves (suc (length s))) (d == c) (λ _. omega arith)
      (λ _. if_elim (FollowLeaves (suc (length s))) (d == 44) (λ _. omega arith) (λ _. tt))

pub start_of-Leaves : (s : Bytes) → StartLeaves (length s) (start_of s)
unfolding start_of
start_of-Leaves [] = omega arith
start_of-Leaves (c ∷ s) =
    let P = StartLeaves (suc (length s)) in
    if_elim P (c == 123) (λ _. omega arith)
      (λ _.
        if_elim P (c == 91) (λ _. omega arith)
          (λ _. if_elim P (c == 34) (λ _. omega arith) (λ _. omega arith)))

prepend-Leaves : (c l : ℕ) (o : Option (Bytes × Bytes)) → Leaves l o → Leaves l (prepend c o)
prepend-Leaves c l none h = tt
prepend-Leaves c l (some r) h = h

pub parse_chars-Leaves : (e : Bool) (s : Bytes) → Leaves (length s) (parse_chars e s)
unfolding parse_chars
parse_chars-Leaves true [] = tt
parse_chars-Leaves false [] = tt
parse_chars-Leaves true (c ∷ s) =
    prepend-Leaves (unescape c) _ _
      (Leaves-mono (length s) (suc (length s)) _ (omega arith) (parse_chars-Leaves false s))
parse_chars-Leaves false (c ∷ s) =
    elim (mark c)
      as (λ x. Leaves (suc (length s)) (elim x [
        | quote ↦ some ([], s)
        | backslash ↦ parse_chars true s
        | plain ↦ prepend c (parse_chars false s)
      ])) [
        | quote ↦ omega arith
        | backslash ↦
            Leaves-mono (length s) (suc (length s)) _ (omega arith) (parse_chars-Leaves true s)
        | plain ↦
            prepend-Leaves c _ _
              (Leaves-mono (length s) (suc (length s)) _ (omega arith) (parse_chars-Leaves false s))
      ]

colon-Leaves :
    (s : Bytes) (l : ℕ) (rest : Bytes) → length s ≤ l → colon s ≡ some rest → length rest ≤ l
unfolding colon
colon-Leaves [] l rest h e = cc
colon-Leaves (c ∷ s) l rest h e = ground (arith, h, e, skip_ws-length s)

key_and_rest-Leaves :
    (k : Bytes) (l : ℕ) (o : Option Bytes)
    → ((rest : Bytes) → o ≡ some rest → length rest ≤ l)
    → Leaves l (key_and_rest k o)
key_and_rest-Leaves k l none h = tt
key_and_rest-Leaves k l (some rest) h = h rest refl

key_end-Leaves : (l : ℕ) (o : Option (Bytes × Bytes)) → Leaves l o → Leaves l (key_end o)
key_end-Leaves l none h = tt
key_end-Leaves l (some (k, s)) h =
    key_and_rest-Leaves k l _
      (λ rest e. colon-Leaves (skip_ws s) l rest (omega (arith, h, skip_ws-length s)) e)

key_at-Leaves : (l : ℕ) (t : Start) → StartLeaves l t → Leaves l (key_at t)
key_at-Leaves l (string_at s) h =
    key_end-Leaves l (parse_chars false s)
      (Leaves-mono (length s) l _ (omega (arith, h)) (parse_chars-Leaves false s))
key_at-Leaves l (object_at s) h = tt
key_at-Leaves l (array_at s) h = tt
key_at-Leaves l (other_at s) h = tt

pub parse_key-Leaves : (s : Bytes) → Leaves (length s) (parse_key s)
unfolding parse_key
parse_key-Leaves s = key_at-Leaves (length s) (start_of s) (start_of-Leaves s)

after_word-length : (word s rest : Bytes) → after_word word s ≡ some rest → length rest ≤ length s
unfolding after_word
after_word-length [] s rest e = let same : s ≡ rest = cc in rw (same) (omega arith)
after_word-length (c ∷ word) [] rest e = cc
after_word-length (c ∷ word) (d ∷ s) rest e = elim (Bool-cases (c == d)) [
  | inl same ↦
      let e' : after_word word s ≡ some rest = sym (rw (same) refl) ∙ e in
      omega (arith, after_word-length word s rest e')
  | inr other ↦ let no_word : none ≡ some rest = sym (rw (other) refl) ∙ e in cc
]

as_word-Leaves :
    (j : Json) (word s : Bytes) (otherwise : Read)
    → Leaves (length s) otherwise
    → Leaves (length s) (as_word j (after_word word s) otherwise)
as_word-Leaves j word s otherwise h = elim (Option-cases (after_word word s)) [
  | inl e ↦ rw (e) h
  | inr (rest, e) ↦ rw (e) (after_word-length word s rest e)
]

as_number-Leaves : (l : ℕ) (o : Option (ℕ × Bytes)) → Leaves l o → Leaves l (as_number o)
as_number-Leaves l none h = tt
as_number-Leaves l (some r) h = h

pub as_string-Leaves : (l : ℕ) (o : Option (Bytes × Bytes)) → Leaves l o → Leaves l (as_string o)
as_string-Leaves l none h = tt
as_string-Leaves l (some r) h = h

pub as_array-Leaves : (l : ℕ) (o : Option (Items × Bytes)) → Leaves l o → Leaves l (as_array o)
as_array-Leaves l none h = tt
as_array-Leaves l (some r) h = h

pub as_object-Leaves : (l : ℕ) (o : Option (Fields × Bytes)) → Leaves l o → Leaves l (as_object o)
as_object-Leaves l none h = tt
as_object-Leaves l (some r) h = h

pub with_item-Leaves :
    (j : Json) (l : ℕ) (o : Option (Items × Bytes)) → Leaves l o → Leaves l (with_item j o)
with_item-Leaves j l none h = tt
with_item-Leaves j l (some r) h = h

pub with_field-Leaves :
    (k : Bytes) (j : Json) (l : ℕ) (o : Option (Fields × Bytes))
    → Leaves l o
    → Leaves l (with_field k j o)
with_field-Leaves k j l none h = tt
with_field-Leaves k j l (some r) h = h

pub parse_other-Leaves :
    (doubles : Doubles) (s : Bytes)
    → Leaves (length s) (doubles.strtod s)
    → Leaves (length s) (parse_other doubles s)
unfolding parse_other
parse_other-Leaves doubles [] h = tt
parse_other-Leaves doubles (c ∷ s) h = as_word-Leaves (bool true) (codes "true") (c ∷ s) _ (
    as_word-Leaves (bool false) (codes "false") (c ∷ s) _ (
      as_word-Leaves null (codes "null") (c ∷ s) _ (as_number-Leaves _ (doubles.strtod (c ∷ s)) h)))
