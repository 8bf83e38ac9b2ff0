-- ===== src/Auth/Tests.antt =====
-- Concrete logins, with a digest that gives its text back and a printer and parser for one text.
use sbs_server.Prelude.{
  List, Option, [], if◌then◌else◌, none, refl, some, true, ℕ, ◌==◌, ◌||◌, ◌↔◌, ◌∷◌, ◌≡◌, ◌≢◌,
}
use sbs_server.Prelude.Bytes.{Bytes, codes, str_eq}
use sbs_server.Json.{Json}
use sbs_server.Auth.Types.{Library, Draw, Code, ok, segfault, Auth}
use sbs_server.Auth.Secrets.{
  random_token, hash_secret, secure_equals, filled, nonzero, url_safe, differences,
}
use sbs_server.Auth.Config.{
  one, save_config, load_config, new, clear_config, clear_login_config, passwordless,
  setup_required,
}
use sbs_server.Auth.Login.{
  login_password, check_password, set_login, setup, update_credentials, validate_session,
}
use sbs_server.Auth.Keys.{
  NewKey, create_api_key, delete_api_key, validate_api_key, new_key, new_secret, shown_key,
  remove_key,
}
use sbs_server.Auth.History.{Op, set_up, login, step, run, after, seen}
use sbs_server.Auth.Updates.{new_salt, login-update_credentials}
use sbs_server.Auth.Sessions.{validate_session-live}
use sbs_server.Auth.Salted.{step-ne-segfault}
use sbs_server.Auth.KeyLife.{validate_api_key-create_api_key, delete_api_key-create_api_key}
use sbs_server.Json.Text.{Doubles}
use sbs_server.Auth.Reload.{restarted}
use sbs_server.Auth.Restart.{text_library, new-save_config_text}

abbrev library : Option Json → Library
library parsed = record {
  sha256 = λ text. text;
  base64 = λ bytes. bytes;
  print = λ j. some (codes "{}");
  parse = λ text. parsed;
}

abbrev plain : Library
plain = library none

-- A draw whose bytes are all one number.
abbrev draw : ℕ → Draw
draw n = record { urandom = []; int_range = λ i. n }

abbrev set_up_now : Op
set_up_now = set_up (some (codes "admin")) (some (codes "secret")) (draw 65) (draw 66) true

abbrev start : Auth
start = after plain (set_up_now ∷ []) none

abbrev token : Bytes
token = random_token plain 32 (draw 66)

encoded :
    random_token plain 4 (record { urandom = 43 ∷ 47 ∷ 61 ∷ []; int_range = λ i. 7 })
    ≡ 45 ∷ 95 ∷ 48 ∷ 7 ∷ []
unfolding random_token filled nonzero url_safe
encoded = refl

-- The login that the setup makes is the only one that the token comes from.
validate_session-live_example : validate_session start (some token) ≡ true
unfolding run step seen setup set_login random_token save_config login_password check_password
    setup_required passwordless secure_equals differences hash_secret new load_config clear_config
    str_eq nonzero filled url_safe
validate_session-live_example = validate_session-live plain (set_up_now ∷ []) none token

abbrev renamed : Code × Auth × Option Bytes
renamed =
    update_credentials plain (some (codes "root")) (some (codes "new")) (draw 67) (draw 68) true
      start

abbrev later : List Op
later = login (some (codes "admin")) (some (codes "secret")) (draw 69) ∷ set_up_now ∷ []

login-update_credentials_example :
    ((login_password plain
        (some (codes "root"))
        (some (codes "old"))
        (draw 70)
        (run plain later renamed.1)).0
      ≡ ok)
    ↔ ((codes "root" ≡ codes "root")
        × (hash_secret plain (new_salt plain (draw 67)) (codes "old")
            ≡ hash_secret plain (new_salt plain (draw 67)) (codes "new")))
unfolding run step setup set_login random_token save_config login_password check_password
    setup_required passwordless secure_equals differences hash_secret new load_config clear_config
    str_eq update_credentials clear_login_config filled nonzero url_safe
login-update_credentials_example =
    login-update_credentials plain (codes "root") (codes "new") (codes "root") (codes "old")
      (draw 67) (draw 68) (draw 70) true later start refl (refl, (refl, tt))

abbrev given : NewKey
given = record {
  secret = draw 71;
  id = draw 72;
  salt = draw 73;
  now = codes "2026-01-01T00:00:00Z";
}

abbrev with_key : Auth
with_key = (create_api_key plain none given true start).1

validate_api_key-create_api_key_example :
    ((create_api_key plain none given true start).2
      ≡ some (new_secret plain given, shown_key (new_key plain none given)))
    × (validate_api_key plain (some (new_secret plain given)) with_key ≡ true)
    × ((text : Bytes)
        → validate_api_key plain (some text) with_key ≡ (
            validate_api_key plain (some text) start
            || str_eq
                (hash_secret plain (new_key plain none given).salt text)
                (new_key plain none given).hash))
unfolding run step setup set_login random_token save_config login_password check_password
    setup_required passwordless secure_equals differences hash_secret new load_config clear_config
    str_eq create_api_key filled nonzero url_safe
validate_api_key-create_api_key_example =
    validate_api_key-create_api_key plain none given true start refl

delete_api_key-create_api_key_example :
    let deleted = (delete_api_key plain (some (new_key plain none given).id) true with_key).1 in
    (deleted.api_keys ≡ start.api_keys)
    × ((text : Bytes)
        → validate_api_key plain (some text) deleted ≡ validate_api_key plain (some text) start)
unfolding run step setup set_login random_token save_config login_password check_password
    setup_required passwordless secure_equals differences hash_secret new load_config clear_config
    str_eq create_api_key delete_api_key remove_key new_key filled nonzero url_safe
delete_api_key-create_api_key_example =
    delete_api_key-create_api_key plain none given true true start tt refl refl

abbrev read_one : Bytes → Option (ℕ × Bytes)
read_one [] = none
read_one (c ∷ s) = if c == 49 then some (one, s) else none

abbrev one_only : Doubles
one_only = record { print = λ n. 49 ∷ []; strtod = read_one }

abbrev reader : Library
reader = text_library one_only (λ text. text) (λ bytes. bytes)

new-save_config_text_example :
    new reader (save_config reader true with_key).1.file
    ≡ restarted (save_config reader true with_key).1
unfolding save_config
new-save_config_text_example =
    new-save_config_text one_only (λ text. text) (λ bytes. bytes) true with_key
      (record { first = 49; others = []; printed = refl; starts = refl; read = λ later h. refl })
      refl

step-ne-segfault_example :
    (step plain (login (some (codes "admin")) (some (codes "wrong")) (draw 74)) start).0 ≢ segfault
unfolding new load_config clear_config
step-ne-segfault_example =
    step-ne-segfault plain none (set_up_now ∷ [])
      (login (some (codes "admin")) (some (codes "wrong")) (draw 74)) refl

-- A file with a user and a hash and no salt, as it could be edited.
abbrev unsalted : Auth
unsalted = record start { password_salt = none }

no_salt :
    (login_password plain (some (codes "admin")) (some (codes "x")) (draw 75) unsalted).0 ≡ segfault
unfolding run step setup set_login random_token save_config login_password check_password
    setup_required passwordless secure_equals differences hash_secret new load_config clear_config
    str_eq filled nonzero url_safe
no_salt = refl
