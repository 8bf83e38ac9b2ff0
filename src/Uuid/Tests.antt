-- ===== src/Uuid/Tests.antt =====
-- Concrete UUIDs.
use sbs_server.Prelude.{◌≡◌, refl, true, false, some, arith}
use sbs_server.Prelude.Bytes.{codes}
use sbs_server.Uuid.{
  Buffer, generate, validate, print_uuid, marked, hex_digit, chars_ok, char_ok, is_xdigit,
}
use sbs_server.Uuid.Format.{validate-generate}

abbrev all_ones : Buffer
all_ones i = 255

printed : generate (some all_ones) ≡ codes "ffffffff-ffff-4fff-bfff-ffffffffffff"
unfolding generate print_uuid marked hex_digit
printed = refl

version_1_refused : validate (some (codes "00000000-0000-1000-8000-000000000000")) ≡ false
unfolding validate chars_ok char_ok is_xdigit
version_1_refused = refl

validate-generate_example : validate (some (generate (some all_ones))) ≡ true
validate-generate_example = validate-generate (some all_ones) (λ i. omega arith)
