-- ===== src/Uuid/Format.antt =====
-- The text of a UUID, as it is made and as it is checked.
use Prim.Native.Nat.{bit_and, bit_or}
use mathlib.Core.Path.{◌∙◌}
use sbs_server.Prelude.{
  ℕ, zero, suc, ◌+◌, ◌/◌, ◌%◌, ◌<◌, ◌≡◌, refl, Bool, true, ◌&&◌, Option, none, some, [], ◌∷◌, ◌++◌,
  arith,
}
use sbs_server.Prelude.Bytes.{Bytes}
use sbs_server.Uuid.{
  Buffer, hex_digit, hex_byte, marked, print_uuid, generate, is_xdigit, char_ok, chars_ok, validate,
}

-- Over a small range, every value is tried.
all_below : ℕ → (ℕ → Bool) → Bool
all_below zero p = true
all_below (suc n) p = p n && all_below n p

all_below_lem : (n : ℕ) (p : ℕ → Bool) (x : ℕ) → all_below n p ≡ true → x < n → p x ≡ true
unfolding all_below
all_below_lem zero p x h lt = absurd (omega arith)
all_below_lem (suc n) p x h lt = ground (arith, all_below_lem n p x)

byte_table :
    all_below 256 (λ b. is_xdigit (hex_digit (b / 16)) && is_xdigit (hex_digit (b % 16))) ≡ true
unfolding all_below is_xdigit hex_digit
byte_table = refl

-- Byte 6 of a UUID, then byte 8: the fixed digit and the free one.
version_table :
    all_below 256 (λ b.
      let v = bit_or (bit_and b 0x0F) 0x40 in
      char_ok 14 (hex_digit (v / 16)) && is_xdigit (hex_digit (v % 16)))
    ≡ true
unfolding all_below is_xdigit hex_digit char_ok
version_table = refl

variant_table :
    all_below 256 (λ b.
      let v = bit_or (bit_and b 0x3F) 0x80 in
      char_ok 19 (hex_digit (v / 16)) && is_xdigit (hex_digit (v % 16)))
    ≡ true
unfolding all_below is_xdigit hex_digit char_ok
variant_table = refl

-- One character that passes, and two.
chars_ok-char :
    (i x : ℕ) (s : Bytes)
    → char_ok i x ≡ true
    → chars_ok (i + 1) s ≡ true
    → chars_ok i (x ∷ s) ≡ true
unfolding chars_ok
chars_ok-char i x s h rest = ground arith

chars_ok-pair :
    (i x y : ℕ) (s : Bytes)
    → char_ok i x && char_ok (i + 1) y ≡ true
    → chars_ok (i + 2) s ≡ true
    → chars_ok i (x ∷ y ∷ s) ≡ true
unfolding chars_ok
chars_ok-pair i x y s h rest = ground arith

-- A byte at a place where two digits stand.
chars_ok-hex_byte :
    (i b : ℕ) (s : Bytes)
    → b < 256
    → ((x y : ℕ) → (char_ok i x && char_ok (i + 1) y) ≡ (is_xdigit x && is_xdigit y))
    → chars_ok (i + 2) s ≡ true
    → chars_ok i (hex_byte b ++ s) ≡ true
chars_ok-hex_byte i b s small plain rest =
    chars_ok-pair i (hex_digit (b / 16)) (hex_digit (b % 16)) s
      (plain (hex_digit (b / 16)) (hex_digit (b % 16)) ∙ all_below_lem 256 _ b byte_table small)
      rest

chars_ok-nil : (i : ℕ) → chars_ok i [] ≡ true
unfolding chars_ok
chars_ok-nil i = refl

module _ (buf : Buffer) (h : (i : ℕ) → buf i < 256) where
  digits :
      (place i : ℕ) (s : Bytes)
      → ((x y : ℕ) → (char_ok place x && char_ok (place + 1) y) ≡ (is_xdigit x && is_xdigit y))
      → chars_ok (place + 2) s ≡ true
      → chars_ok place (hex_byte (buf i) ++ s) ≡ true
  digits place i s plain rest = chars_ok-hex_byte place (buf i) s (h i) plain rest

  chars_ok-print_uuid : chars_ok 0 (print_uuid (marked buf)) ≡ true
  unfolding print_uuid marked char_ok
  chars_ok-print_uuid =
      let v = bit_or (bit_and (buf 6) 0x0F) 0x40 in
      let w = bit_or (bit_and (buf 8) 0x3F) 0x80 in
      (digits 0 0 _ (λ x y. refl)
        (digits 2 1 _ (λ x y. refl)
          (digits 4 2 _ (λ x y. refl)
            (digits 6 3 _ (λ x y. refl)
              (chars_ok-char 8 b'-' _ refl (
                digits 9 4 _ (λ x y. refl)
                  (digits 11 5 _ (λ x y. refl)
                    (chars_ok-char 13 b'-' _ refl (
                      chars_ok-pair 14 (hex_digit (v / 16)) (hex_digit (v % 16)) _
                        (all_below_lem 256 _ (buf 6) version_table (h 6))
                        (digits 16 7 _ (λ x y. refl)
                          (chars_ok-char 18 b'-' _ refl (
                            chars_ok-pair 19 (hex_digit (w / 16)) (hex_digit (w % 16)) _
                              (all_below_lem 256 _ (buf 8) variant_table (h 8))
                              (digits 21 9 _ (λ x y. refl)
                                (chars_ok-char 23 b'-' _ refl (
                                  digits 24 10 _ (λ x y. refl)
                                    (digits 26 11 _ (λ x y. refl)
                                      (digits 28 12 _ (λ x y. refl)
                                        (digits 30 13 _ (λ x y. refl)
                                          (digits 32 14 _ (λ x y. refl)
                                            (digits 34 15 _ (λ x y. refl)
                                              (chars_ok-nil 36)))))))))))))))))))))

abbrev pub AreBytes : Option Buffer → Type 0
AreBytes none = Unit {0}
AreBytes (some buf) = (i : ℕ) → buf i < 256

-- Whatever bytes are read, or if none can be read, what `generate` gives passes `validate`.
pub validate-generate :
    (random : Option Buffer) → AreBytes random → validate (some (generate random)) ≡ true
unfolding validate generate print_uuid marked chars_ok char_ok is_xdigit
validate-generate none h = refl
validate-generate (some buf) h = chars_ok-print_uuid buf h
