-- ===== src/Rpc/Types.antt =====
-- What a request meets and changes, and the objects that answers are made of.
use sbs_server.Prelude.{ℕ, ◌+◌, ◌-◌, ◌*◌, Bool, Option}
use sbs_server.Prelude.Bytes.{Bytes, codes}
use sbs_server.Json.{Json, num, str, object, no_fields, field}
use sbs_server.Table.{Table}
use sbs_server.Auth.Types.{Draw, Code, Auth}
use sbs_server.Auth.Keys.{NewKey}

-- The bits of the double -n, for n from 2^14 to 2^15 - 1.
abbrev pub minus : ℕ → ℕ
minus n = 13893604850437980160 + (n - 16384) * 274877906944

-- `rpc_error` and `api_error`
unfoldable pub rpc_error : ℕ → Bytes → Json
rpc_error code message =
    object (field (codes "code") (num code) (field (codes "message") (str message) no_fields))

-- `client`: NULL for a request on the local socket, and else the client's field `authenticated`.
abbrev pub Client : Type 0
Client = Option Bool

-- What the library and the kernel give a request: to `random_token` for a salt and for a token, to
-- `create_api_key`, and whether auth.json can be written.
pub record Given : Type 0 where
  pub salt : Draw
  pub token : Draw
  pub key : NewKey
  pub can_write : Bool

-- What a handler leaves in `*result` and `*error`, and what it returns.
pub record Reply : Type 0 where
  pub code : Code
  pub result : Option Json
  pub error : Option Json

-- The handlers of handlers/auth.c, and those of other components: `S` is the rest of the server and
-- of its clients, which the first do not touch as the others do not touch the login.
pub data Handler (S : Type 0) : Type 0 where
  auth_status auth_setup auth_login auth_login_api_key auth_create_api_key auth_list_api_keys :
      Handler S
  auth_delete_api_key auth_update_credentials auth_set_passwordless : Handler S
  other : (S → Option Json → S × Reply) → Handler S

-- `struct sbs_api_server`, its `auth` set as `main` does before any client is there.
pub record Server (S : Type 0) : Type 0 where
  pub auth : Auth
  pub rest : S
  pub methods : Table (Handler S)
