-- ===== src/Uuid.antt =====
-- src/common/uuid.c: making and checking version 4 UUIDs.
pub mod Format
mod Tests
use Prim.Native.Nat.{bit_and, bit_or}
use sbs_server.Prelude.{
  ℕ, ◌+◌, ◌-◌, ◌/◌, ◌%◌, Bool, true, false, ◌&&◌, ◌||◌, Option, none, some, [], ◌∷◌, ◌++◌,
  if◌then◌else◌, ◌==◌, leb, ltb, length,
}
use sbs_server.Prelude.Bytes.{Bytes, codes}

-- A digit of "%02x".
unfoldable pub hex_digit : ℕ → ℕ
hex_digit n = if ltb n 10 then b'0' + n else b'a' + (n - 10)

-- "%02x" of a byte.
abbrev pub hex_byte : ℕ → Bytes
hex_byte b = hex_digit (b / 16) ∷ hex_digit (b % 16) ∷ []

-- `unsigned char buf[16]`
abbrev pub Buffer : Type 0
Buffer = ℕ → ℕ

-- The version and the variant, in bytes 6 and 8.
unfoldable pub marked : Buffer → Buffer
marked buf i =
    if i == 6
    then bit_or (bit_and (buf 6) 0x0F) 0x40
    else if i == 8
    then bit_or (bit_and (buf 8) 0x3F) 0x80
    else buf i

-- The `snprintf` of `sbs_uuid_generate`.
unfoldable pub print_uuid : Buffer → Bytes
print_uuid buf =
    hex_byte (buf 0)
    ++ hex_byte (buf 1)
    ++ hex_byte (buf 2)
    ++ hex_byte (buf 3)
    ++ b'-' ∷ hex_byte (buf 4)
    ++ hex_byte (buf 5)
    ++ b'-' ∷ hex_byte (buf 6)
    ++ hex_byte (buf 7)
    ++ b'-' ∷ hex_byte (buf 8)
    ++ hex_byte (buf 9)
    ++ b'-' ∷ hex_byte (buf 10)
    ++ hex_byte (buf 11)
    ++ hex_byte (buf 12)
    ++ hex_byte (buf 13)
    ++ hex_byte (buf 14)
    ++ hex_byte (buf 15)

-- `sbs_uuid_generate`; `random` is what is read from /dev/urandom, if it opens and gives 16 bytes.
unfoldable pub generate : Option Buffer → Bytes
unfolding marked print_uuid
generate none = codes "00000000-0000-4000-8000-000000000000"
generate (some random) = print_uuid (marked random)

-- `isxdigit`, `tolower`
unfoldable pub is_xdigit : ℕ → Bool
is_xdigit c =
    (leb b'0' c && leb c b'9') || ((leb b'A' c && leb c b'F') || (leb b'a' c && leb c b'f'))

abbrev pub to_lower : ℕ → ℕ
to_lower c = if leb b'A' c && leb c b'Z' then c + 32 else c

-- The test of the character at place `i`.
unfoldable pub char_ok : ℕ → ℕ → Bool
char_ok i c =
    if (i == 8) || ((i == 13) || ((i == 18) || (i == 23)))
    then c == b'-'
    else if i == 14
    then c == b'4'
    else if i == 19
    then (let lc = to_lower c in (lc == b'8') || ((lc == b'9') || ((lc == b'a') || (lc == b'b'))))
    else is_xdigit c

-- The loop of `sbs_uuid_validate` from place `i` on.
unfoldable pub chars_ok : ℕ → Bytes → Bool
unfolding char_ok is_xdigit
chars_ok i [] = true
chars_ok i (c ∷ s) = let rest = chars_ok (i + 1) s in if char_ok i c then rest else false

-- `sbs_uuid_validate`
unfoldable pub validate : Option Bytes → Bool
unfolding chars_ok
validate none = false
validate (some s) = if length s == 36 then chars_ok 0 s else false
