-- ===== src/Rpc/Responses.antt =====
-- The form of the responses.
use sbs_server.Prelude.{
  ◌≡◌, refl, subst, inl, inr, not, Option, none, some, is_some, Bool-cases, Option-cases,
}
use sbs_server.Prelude.Bytes.{Bytes, codes, str_eq}
use sbs_server.Json.{Json, null, bool, num, array, object, str, object_item}
use sbs_server.Table.{lookup}
use sbs_server.Auth.Types.{Library, Code, ok, inval, io, not_found, segfault}
use sbs_server.Rpc.Types.{Given, Client, Reply, Handler, Server}
use sbs_server.Rpc.Dispatch.{
  Outcome, is_auth_method, request_authenticated, call, checked, named, answered, dispatch,
  id_field, response, error_response, chosen_response, reply_response,
}

-- A response of JSON-RPC 2.0 to a request with an id: it has the id, and either a result or an error.
abbrev pub Answers : Json → Json → Type 0
Answers id r =
    (object_item (codes "jsonrpc") r ≡ some (str (codes "2.0")))
    × (object_item (codes "id") r ≡ some id)
    × (is_some (object_item (codes "result") r) ≡ not (is_some (object_item (codes "error") r)))

-- The response, if there is one, is an answer.
abbrev MayAnswer : Json → Option Json → Type 0
MayAnswer id none = Unit
MayAnswer id (some r) = Answers id r

result-Answers : (id v : Json) → Answers id (response id (codes "result") v)
unfolding response str_eq
result-Answers id v = (refl, refl, refl)

error-Answers : (id v : Json) → Answers id (response id (codes "error") v)
unfolding response str_eq
error-Answers id v = (refl, refl, refl)

chosen_response-Answers :
    (id : Json) (code : Code) (result error : Option Json)
    → Answers id (chosen_response id code result error)
unfolding error_response
chosen_response-Answers id ok (some r) error = result-Answers id r
chosen_response-Answers id ok none (some e) = error-Answers id e
chosen_response-Answers id ok none none = error-Answers id _
chosen_response-Answers id _ result (some e) = error-Answers id e
chosen_response-Answers id _ result none = error-Answers id _

reply-MayAnswer :
    (id : Json) (code : Code) (result error : Option Json)
    → MayAnswer id (reply_response id (record { code = code; result = result; error = error }))
reply-MayAnswer id segfault result error = tt
reply-MayAnswer id ok result error = chosen_response-Answers id ok result error
reply-MayAnswer id inval result error = chosen_response-Answers id inval result error
reply-MayAnswer id io result error = chosen_response-Answers id io result error
reply-MayAnswer id not_found result error = chosen_response-Answers id not_found result error

-- The id that a response must have: a number or a text of the request's member `id`, else null.
abbrev pub own_id : Option Json → Json
own_id (some (num n)) = num n
own_id (some (str s)) = str s
own_id (some null) = null
own_id (some (bool b)) = null
own_id (some (array xs)) = null
own_id (some (object fs)) = null
own_id none = null

abbrev pub request_id : Option Json → Json
request_id none = null
request_id (some request) = own_id (object_item (codes "id") request)

id_field_lem : (id : Option Json) → id_field id ≡ own_id id
id_field_lem (some (num n)) = refl
id_field_lem (some (str s)) = refl
id_field_lem (some null) = refl
id_field_lem (some (bool b)) = refl
id_field_lem (some (array xs)) = refl
id_field_lem (some (object fs)) = refl
id_field_lem none = refl

module _ (lib : Library) {S : Type 0} where
  abbrev Answered : Json → Outcome S → Type 0
  Answered id out = MayAnswer id out.2

  answered-Answered :
      (id : Json) (out : Server S × Client × Reply) → Answered id (answered lib id out)
  answered-Answered id (server, client, reply) =
      reply-MayAnswer id reply.code reply.result reply.error

  checked-Answered :
      (id : Json) (method : Bytes) (handler : Handler S) (given : Given) (params : Option Json)
      (server : Server S) (client : Client)
      → Answered id (checked lib id method handler given params server client)
  unfolding checked error_response
  checked-Answered id method handler given params server client =
      elim (Bool-cases (is_auth_method method)) [
        | inl e ↦ rw (e) (answered-Answered id (call lib handler given params server client))
        | inr e ↦ elim (Bool-cases (request_authenticated lib server.auth client params).0) [
          | inl c ↦
              let after = (request_authenticated lib server.auth client params).1 in
              rw (e, c) (answered-Answered id (call lib handler given params server after))
          | inr c ↦ rw (e, c) (error-Answers id _)
        ]
      ]

  named-Answered :
      (id : Json) (method : Option Bytes) (given : Given) (params : Option Json) (server : Server S)
      (client : Client)
      → Answered id (named lib id method given params server client)
  unfolding error_response
  named-Answered id none given params server client = error-Answers id _
  named-Answered id (some method) given params server client =
      elim (Option-cases (lookup method server.methods)) [
        | inl e ↦ rw (e) (error-Answers id _)
        | inr (handler, e) ↦ rw (e) (checked-Answered id method handler given params server client)
      ]

  dispatch-Answered :
      (request : Option Json) (given : Given) (server : Server S) (client : Client)
      → Answered (request_id request) (dispatch lib request given server client)
  unfolding dispatch error_response
  dispatch-Answered none given server client = error-Answers null _
  dispatch-Answered (some (object fs)) given server client =
      subst (λ id. Answered id (dispatch lib (some (object fs)) given server client))
        (id_field_lem (object_item (codes "id") (object fs)))
        (named-Answered _ _ given _ server client)
  dispatch-Answered (some _) given server client = error-Answers null _

  -- Every response, whatever the request, the methods and the client, says JSON-RPC 2.0, has the id of
  -- the request, or null if that is no number and no string, and has either a result or an error.
  pub dispatch-response :
      (request : Option Json) (given : Given) (server : Server S) (client : Client) (r : Json)
      → (dispatch lib request given server client).2 ≡ some r
      → Answers (request_id request) r
  dispatch-response request given server client r e =
      subst (MayAnswer (request_id request)) e (dispatch-Answered request given server client)
