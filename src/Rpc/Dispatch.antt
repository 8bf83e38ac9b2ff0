-- ===== src/Rpc/Dispatch.antt =====
-- jsonrpc.c: a request is parsed, its method looked up, its sender checked, and its handler called.
use sbs_server.Prelude.{ℕ, Bool, true, false, not, ◌||◌, Option, none, some, if◌then◌else◌}
use sbs_server.Prelude.Bytes.{Bytes, codes, str_eq}
use sbs_server.Json.{
  Json, null, num, str, object, no_fields, field, object_item, string_value, json_str,
}
use sbs_server.Table.{lookup}
use sbs_server.Auth.Types.{Library, Code, ok, segfault, Auth}
use sbs_server.Auth.Config.{passwordless}
use sbs_server.Auth.Login.{validate_session}
use sbs_server.Auth.Keys.{validate_api_key}
use sbs_server.Rpc.Types.{
  Given, Reply, Client, Handler, Server, auth_status, auth_setup, auth_login, auth_login_api_key,
  auth_create_api_key, auth_list_api_keys, auth_delete_api_key, auth_update_credentials,
  auth_set_passwordless, other, rpc_error, minus,
}
use sbs_server.Rpc.Handlers.{
  Answer, handle_status, handle_setup, handle_login, handle_login_api_key, handle_create_api_key,
  handle_list_api_keys, handle_delete_api_key, handle_update_credentials, handle_set_passwordless,
}

-- `add_id_field`: the value that the response has for the id of the request.
abbrev pub id_field : Option Json → Json
id_field (some (num n)) = num n
id_field (some (str s)) = str s
id_field _ = null

unfoldable pub response : Json → Bytes → Json → Json
response id key value = object (
    field (codes "jsonrpc") (str (codes "2.0")) (field (codes "id") id (field key value no_fields)))

unfoldable pub error_response : Json → ℕ → Bytes → Json
error_response id number message = response id (codes "error") (rpc_error (minus number) message)

unfoldable pub is_auth_method : Bytes → Bool
is_auth_method method =
    str_eq method (codes "auth.status")
    || (str_eq method (codes "auth.setup")
        || (str_eq method (codes "auth.login") || str_eq method (codes "auth.loginApiKey")))

-- The response to what a handler left.
abbrev pub chosen_response : Json → Code → Option Json → Option Json → Json
chosen_response id ok (some result) error = response id (codes "result") result
chosen_response id code result (some error) = response id (codes "error") error
chosen_response id code result none = error_response id 32603 (codes "Internal error")

abbrev pub reply_response : Json → Reply → Option Json
reply_response id reply = elim reply.code [
  | segfault ↦ none
  | _ ↦ some (chosen_response id reply.code reply.result reply.error)
]

-- The server, the client and the response: none if the process has ended.
abbrev pub Outcome : Type 0 → Type 0
Outcome S = Server S × Client × Option Json

module _ (lib : Library) where
  -- Whether the request may go on, and the client's flag afterwards.
  unfoldable pub request_authenticated : Auth → Client → Option Json → Bool × Client
  request_authenticated a none params = (true, none)
  request_authenticated a (some flag) params =
      if passwordless a
      then (true, some flag)
      else (if flag
          then (true, some flag)
          else (if validate_session a (json_str params (codes "auth_token"))
              then (true, some true)
              else (if validate_api_key lib (json_str params (codes "api_key")) a
                  then (true, some true)
                  else (false, some flag))))

  abbrev pub with_login : {S : Type 0} → Server S → Answer → Server S × Client × Reply
  with_login server (a, client, reply) = (record server { auth = a }, client, reply)

  unfoldable pub call :
      {S : Type 0} → Handler S → Given → Option Json → Server S → Client → Server S × Client × Reply
  call auth_status given params server client = with_login server (handle_status server.auth client)
  call auth_setup given params server client =
      with_login server (handle_setup lib given params server.auth client)
  call auth_login given params server client =
      with_login server (handle_login lib given params server.auth client)
  call auth_login_api_key given params server client =
      with_login server (handle_login_api_key lib given params server.auth client)
  call auth_create_api_key given params server client =
      with_login server (handle_create_api_key lib given params server.auth client)
  call auth_list_api_keys given params server client =
      with_login server (handle_list_api_keys server.auth client)
  call auth_delete_api_key given params server client =
      with_login server (handle_delete_api_key lib given params server.auth client)
  call auth_update_credentials given params server client =
      with_login server (handle_update_credentials lib given params server.auth client)
  call auth_set_passwordless given params server client =
      with_login server (handle_set_passwordless lib given params server.auth client)
  call (other handler) given params server client =
      let out = handler server.rest params in (record server { rest = out.0 }, client, out.1)

  abbrev pub answered : {S : Type 0} → Json → Server S × Client × Reply → Outcome S
  answered id (server, client, reply) = (server, client, reply_response id reply)

  -- The check, and the call of the handler with the client as the check left it.
  unfoldable pub checked :
      {S : Type 0} → Json → Bytes → Handler S → Given → Option Json → Server S → Client → Outcome S
  checked id method handler given params server client =
      let check = request_authenticated server.auth client params in
      if is_auth_method method
      then answered id (call handler given params server client)
      else (if not check.0
          then (server, check.1, some (error_response id 32020 (codes "Authentication required")))
          else answered id (call handler given params server check.1))

  abbrev pub found :
      {S : Type 0}
      → Json
      → Bytes
      → Option (Handler S)
      → Given
      → Option Json
      → Server S
      → Client
      → Outcome S
  found id method none given params server client =
      (server, client, some (error_response id 32601 (codes "Method not found")))
  found id method (some handler) given params server client =
      checked id method handler given params server client

  abbrev pub named :
      {S : Type 0} → Json → Option Bytes → Given → Option Json → Server S → Client → Outcome S
  named id none given params server client =
      (server, client, some (error_response id 32600 (codes "Invalid Request")))
  named id (some method) given params server client =
      found id method (lookup method server.methods) given params server client

  -- From the parsed text on; `none` if it could not be parsed.
  unfoldable pub dispatch : {S : Type 0} → Option Json → Given → Server S → Client → Outcome S
  dispatch (some (object fs)) given server client =
      let request = object fs in
      named (id_field (object_item (codes "id") request))
        (string_value (object_item (codes "method") request)) given
        (object_item (codes "params") request) server client
  dispatch request given server client =
      (server, client, some (error_response null 32700 (codes "Parse error")))

  abbrev pub printed : Option Json → Option Bytes
  printed none = none
  printed (some j) = lib.print j

  -- `sbs_api_server_dispatch_json` with the text of a request.
  unfoldable pub dispatch_json :
      {S : Type 0} → Bytes → Given → Server S → Client → Server S × Client × Option Bytes
  dispatch_json text given server client =
      let out = dispatch (lib.parse text) given server client in (out.0, out.1, printed out.2)
