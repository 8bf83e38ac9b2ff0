-- ===== src/Auth/Restart.antt =====
-- The configuration survives a restart with the JSON text of cjson_stub.c.
use sbs_server.Prelude.{◌≡◌, Bool, Option, none, some, List, [], ◌∷◌}
use sbs_server.Prelude.Bytes.{Bytes}
use sbs_server.Json.{Fields}
use sbs_server.Json.Text.{Doubles, print_unformatted}
use sbs_server.Json.Parse.{parse_text}
use sbs_server.Json.Finite.{IsFinite, Finite, FiniteItems, FiniteFields}
use sbs_server.Json.RoundTrip.{parse_text-print_unformatted}
use sbs_server.Auth.Types.{Library, ok, Auth, ApiKey}
use sbs_server.Auth.Config.{one, save_config, new, saved, saved_key, saved_keys, add_optional}
use sbs_server.Auth.Reload.{restarted, new-save_config}

-- The library with the printer and the parser of cjson_stub.c.
abbrev pub text_library : Doubles → (Bytes → Bytes) → (Bytes → Bytes) → Library
text_library doubles sha256 base64 = record {
  sha256 = sha256;
  base64 = base64;
  print = λ j. some (print_unformatted doubles j);
  parse = λ text. parse_text doubles text;
}

module _ (doubles : Doubles) where
  add_optional-FiniteFields :
      (key : Bytes) (o : Option Bytes) (later : Fields)
      → FiniteFields doubles later
      → FiniteFields doubles (add_optional key o later)
  unfolding Finite
  add_optional-FiniteFields key none later f = f
  add_optional-FiniteFields key (some s) later f = (tt, f)

  saved_keys-FiniteItems : (keys : List ApiKey) → FiniteItems doubles (saved_keys keys)
  unfolding Finite saved_keys saved_key
  saved_keys-FiniteItems [] = tt
  saved_keys-FiniteItems (key ∷ keys) =
      ((tt, (tt, (tt, (tt, (tt, tt))))), saved_keys-FiniteItems keys)

  -- Its one number is the version of the format, 1.
  saved-Finite : (a : Auth) → IsFinite doubles one → Finite doubles (saved a)
  unfolding Finite saved
  saved-Finite a f = (
    f,
    (
      tt,
      add_optional-FiniteFields _ a.username _ (
          add_optional-FiniteFields _ a.password_salt _ (
            add_optional-FiniteFields _ a.password_hash _ (saved_keys-FiniteItems a.api_keys, tt))),
    ),
  )

  -- With the printer and the parser of cjson_stub.c, if 1.0 is printed so that it is read back: a
  -- server that starts from the file of a successful `save_config` has the configuration that was
  -- saved, names and dates of keys and the mode given where they were missing, and no sessions.
  pub new-save_config_text :
      (sha256 base64 : Bytes → Bytes) (can_write : Bool) (a : Auth)
      → IsFinite doubles one
      → let lib = text_library doubles sha256 base64 in
        (save_config lib can_write a).0 ≡ ok
        → new lib (save_config lib can_write a).1.file ≡ restarted (save_config lib can_write a).1
  new-save_config_text sha256 base64 can_write a f done =
      new-save_config (text_library doubles sha256 base64) can_write a
        (λ text e.
          let same : text ≡ print_unformatted doubles (saved a) = cc in
          rw (same) (parse_text-print_unformatted doubles (saved a) (saved-Finite a f)))
        done
