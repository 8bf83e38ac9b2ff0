-- ===== src/Auth/History.antt =====
-- Histories: the operations that change the state, in any order and with anything that they meet.
use sbs_server.Prelude.{Bool, Option, none, List, [], ◌∷◌}
use sbs_server.Prelude.Bytes.{Bytes}
use sbs_server.Auth.Types.{Library, Draw, Code, ok, Auth}
use sbs_server.Auth.Config.{new}
use sbs_server.Auth.Login.{Out, login_password, setup, update_credentials, set_passwordless}
use sbs_server.Auth.Keys.{NewKey, login_api_key, create_api_key, delete_api_key}

-- The calls, each with what it meets; `edit` is a change that someone else makes to auth.json.
pub data Op : Type 0 where
  set_up : (username password : Option Bytes) (salt token : Draw) (can_write : Bool) → Op
  login : (username password : Option Bytes) (token : Draw) → Op
  login_key : (api_key : Option Bytes) (token : Draw) → Op
  create_key : (name : Option Bytes) (given : NewKey) (can_write : Bool) → Op
  delete_key : (id : Option Bytes) (can_write : Bool) → Op
  update : (username password : Option Bytes) (salt token : Draw) (can_write : Bool) → Op
  set_mode : (passwordless can_write : Bool) → Op
  edit : (file : Option Bytes) → Op

abbrev pub without_token : Code × Auth → Out
without_token (code, a) = (code, a, none)

abbrev pub without_key {ℓ} : {A : Type ℓ} → Code × Auth × A → Out
without_key (code, a, key) = (code, a, none)

module _ (lib : Library) where
  unfoldable pub step : Op → Auth → Out
  step (set_up u p salt token w) a = setup lib u p salt token w a
  step (login u p token) a = login_password lib u p token a
  step (login_key key token) a = login_api_key lib key token a
  step (create_key name given w) a = without_key (create_api_key lib name given w a)
  step (delete_key id w) a = without_token (delete_api_key lib id w a)
  step (update u p salt token w) a = update_credentials lib u p salt token w a
  step (set_mode b w) a = without_token (set_passwordless lib b w a)
  step (edit file) a = (ok, record a { file = file }, none)

  -- The state after operations, the last one first.
  unfoldable pub run : List Op → Auth → Auth
  run [] a = a
  run (op ∷ earlier) a = (step op (run earlier a)).1

  -- From the start of the server on.
  abbrev pub after : List Op → Option Bytes → Auth
  after ops file = run ops (new lib file)

  -- What the callers saw: each operation with its code and token.
  unfoldable pub seen : List Op → Option Bytes → List (Op × Code × Option Bytes)
  seen [] file = []
  seen (op ∷ earlier) file =
      let out = step op (after earlier file) in (op, out.0, out.2) ∷ seen earlier file
