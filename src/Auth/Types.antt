-- ===== src/Auth/Types.antt =====
-- The data of auth_manager.c, and the library functions that it calls.
use sbs_server.Prelude.{ℕ, Option, List}
use sbs_server.Prelude.Bytes.{Bytes}
use sbs_server.Table.{Table}
use sbs_server.Json.{Json}

-- What the code uses of GLib and libcjson: `g_checksum_get_string` of a SHA-256 sum (of the bytes
-- given to it one after the other), `g_base64_encode`, `cJSON_PrintUnformatted`, which gives NULL
-- when memory runs out, and `cJSON_Parse`.
pub record Library : Type 0 where
  pub sha256 : Bytes → Bytes
  pub base64 : Bytes → Bytes
  pub print : Json → Option Bytes
  pub parse : Bytes → Option Json

-- What a call of `random_token` meets: the bytes that /dev/urandom gives before its end or an error,
-- and the number that `g_random_int_range(1, 255)` gives for a place of the buffer.
pub record Draw : Type 0 where
  pub urandom : Bytes
  pub int_range : ℕ → ℕ

-- The codes that the file gives, and what becomes of the process that reads through NULL.
pub data Code : Type 0 where
  ok inval io not_found segfault : Code

-- `sbs_api_key_record_t`
pub record ApiKey : Type 0 where
  pub id : Bytes
  pub name : Option Bytes
  pub salt : Bytes
  pub hash : Bytes
  pub created_at : Option Bytes

-- `struct sbs_auth_manager`: for its path, the contents of the file there, if there is one (and then
-- it can be read). A session has the value 1.
pub record Auth : Type 0 where
  pub mode : Option Bytes
  pub username : Option Bytes
  pub password_salt : Option Bytes
  pub password_hash : Option Bytes
  pub api_keys : List ApiKey
  pub sessions : Table ℕ
  pub file : Option Bytes
