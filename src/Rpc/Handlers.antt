-- ===== src/Rpc/Handlers.antt =====
-- handlers/auth.c: the handlers of the methods `auth.*`.
use sbs_server.Prelude.{ℕ, true, not, Option, none, some, [], if◌then◌else◌}
use sbs_server.Prelude.Bytes.{Bytes, codes}
use sbs_server.Json.{Json, str, bool, object, no_fields, field, append_item, json_str, json_bool}
use sbs_server.Auth.Types.{Library, Code, ok, inval, Auth}
use sbs_server.Auth.Config.{or_else, setup_required, status_json}
use sbs_server.Auth.Login.{Out, login_password, setup, update_credentials, set_passwordless}
use sbs_server.Auth.Keys.{login_api_key, create_api_key, list_api_keys, delete_api_key}
use sbs_server.Rpc.Types.{Given, Reply, Client, rpc_error, minus}

-- The state of the login, the client, and the reply.
abbrev pub Answer : Type 0
Answer = Auth × Client × Reply

abbrev pub replied : Json → Reply
replied result = record { code = ok; result = some result; error = none }

abbrev pub refusal : Code → ℕ → Bytes → Reply
refusal code number message = record {
  code = code;
  result = none;
  error = some (rpc_error (minus number) message);
}

-- `if (client) client->authenticated = true`
abbrev pub authenticate : Client → Client
authenticate none = none
authenticate (some flag) = some true

unfoldable pub login_result : Auth → Option Bytes → Json
login_result a token = status_json a (field (codes "token") (str (or_else token [])) no_fields)

-- After a login that the client asked for: an error, or the client is authenticated.
abbrev pub after_login : ℕ → Bytes → Client → Out → Answer
after_login number message client (ok, a, token) =
    (a, authenticate client, replied (login_result a token))
after_login number message client (code, a, token) = (a, client, refusal code number message)

abbrev pub without_token : Code × Auth → Out
without_token (code, a) = (code, a, none)

unfoldable pub handle_status : Auth → Client → Answer
handle_status a client = (a, client, replied (status_json a no_fields))

unfoldable pub handle_list_api_keys : Auth → Client → Answer
handle_list_api_keys a client =
    (a, client, replied (object (field (codes "api_keys") (list_api_keys a) no_fields)))

abbrev made_key : Client → Code × Auth × Option (Bytes × Json) → Answer
made_key client (ok, a, some (key, metadata)) =
    (a, client, replied (append_item (codes "api_key") (str key) metadata))
made_key client (code, a, made) = (a, client, refusal code 32013 (codes "Failed to create API key"))

abbrev deleted_key : Client → Code × Auth → Answer
deleted_key client (ok, a) =
    (a, client, replied (object (field (codes "deleted") (bool true) no_fields)))
deleted_key client (code, a) = (a, client, refusal code 32017 (codes "Failed to delete API key"))

abbrev mode_set : Client → Code × Auth → Answer
mode_set client (ok, a) = (a, client, replied (status_json a no_fields))
mode_set client (code, a) =
    (a, client, refusal code 32015 (codes "Failed to update passwordless mode"))

abbrev setup_message : Bytes
setup_message = codes "Invalid setup request"

module _ (lib : Library) where
  unfoldable pub handle_setup : Given → Option Json → Auth → Client → Answer
  handle_setup given params a client =
      let free =
        if not (setup_required a)
        then (a, client, refusal inval 32010 setup_message)
        else after_login 32010 setup_message client
            (without_token (set_passwordless lib true given.can_write a)) in
      let user = json_str params (codes "username") in
      let password = json_str params (codes "password") in
      if json_bool params (codes "passwordless")
      then free
      else after_login 32010 setup_message client
          (setup lib user password given.salt given.token given.can_write a)

  unfoldable pub handle_login : Given → Option Json → Auth → Client → Answer
  handle_login given params a client =
      after_login 32011 (codes "Invalid username or password") client (
        login_password lib (json_str params (codes "username")) (json_str params (codes "password"))
          given.token a)

  unfoldable pub handle_login_api_key : Given → Option Json → Auth → Client → Answer
  handle_login_api_key given params a client =
      after_login 32012 (codes "Invalid API key") client
        (login_api_key lib (json_str params (codes "api_key")) given.token a)

  unfoldable pub handle_create_api_key : Given → Option Json → Auth → Client → Answer
  handle_create_api_key given params a client =
      made_key client
        (create_api_key lib (json_str params (codes "name")) given.key given.can_write a)

  unfoldable pub handle_delete_api_key : Given → Option Json → Auth → Client → Answer
  handle_delete_api_key given params a client =
      deleted_key client (delete_api_key lib (json_str params (codes "id")) given.can_write a)

  unfoldable pub handle_update_credentials : Given → Option Json → Auth → Client → Answer
  handle_update_credentials given params a client =
      after_login 32014 (codes "Failed to update credentials") client (
        update_credentials lib (json_str params (codes "username"))
          (json_str params (codes "password")) given.salt given.token given.can_write a)

  unfoldable pub handle_set_passwordless : Given → Option Json → Auth → Client → Answer
  handle_set_passwordless given params a client =
      mode_set client (set_passwordless lib (json_bool params (codes "enabled")) given.can_write a)
