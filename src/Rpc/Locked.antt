-- ===== src/Rpc/Locked.antt =====
-- What a client without credentials can do to a server with a login: nothing.
use sbs_server.Prelude.{
  ◌≡◌, refl, sym, ◌∙◌, inl, inr, Bool, false, ◌||◌, ◌&&◌, Option, none, some, if◌then◌else◌,
  Bool-cases, Option-cases, arith,
}
use sbs_server.Prelude.Bytes.{Bytes, codes, str_eq, str_eq_iff}
use sbs_server.Json.{Json, object, object_item, string_value, json_str, json_bool}
use sbs_server.Table.{Table, lookup}
use sbs_server.Auth.Types.{Library, inval, Auth}
use sbs_server.Auth.Secrets.{hash_secret}
use sbs_server.Auth.Login.{validate_session, known_session, login_password, refused}
use sbs_server.Auth.Keys.{validate_api_key, login_api_key}
use sbs_server.Auth.Credentials.{IsSetUp, IsSetUp-setup_required, login-IsSetUp}
use sbs_server.Auth.Kept.{setup-IsSetUp}
use sbs_server.Rpc.Types.{
  Given, Handler, Server, auth_status, auth_setup, auth_login, auth_login_api_key,
}
use sbs_server.Rpc.Handlers.{handle_status, handle_setup, handle_login, handle_login_api_key}
use sbs_server.Rpc.Dispatch.{
  Outcome, is_auth_method, request_authenticated, call, named, checked, dispatch,
}
use sbs_server.Rpc.Registered.{IsGuarded}

module _ (lib : Library) (u s h : Bytes) where
  -- A user and a password that log in.
  abbrev pub is_login : Option Bytes → Option Bytes → Bool
  is_login (some u') (some p') = str_eq u' u && str_eq (hash_secret lib s p') h
  is_login _ _ = false

  -- Whether a request shows credentials: a login with the password, a login with an API key, or any
  -- other method with a session or an API key.
  abbrev pub method_shows : Auth → Bytes → Option Json → Bool
  method_shows a method params =
      if str_eq method (codes "auth.status")
      then false
      else (if str_eq method (codes "auth.setup")
          then false
          else (if str_eq method (codes "auth.login")
              then is_login (json_str params (codes "username"))
                  (json_str params (codes "password"))
              else (if str_eq method (codes "auth.loginApiKey")
                  then validate_api_key lib (json_str params (codes "api_key")) a
                  else (known_session a (json_str params (codes "auth_token"))
                      || validate_api_key lib (json_str params (codes "api_key")) a))))

  abbrev pub named_shows : Auth → Option Bytes → Option Json → Bool
  named_shows a none params = false
  named_shows a (some method) params = method_shows a method params

  abbrev pub shows : Auth → Option Json → Bool
  shows a none = false
  shows a (some request) =
      named_shows a (string_value (object_item (codes "method") request))
        (object_item (codes "params") request)

  login-refused :
      (u' p' : Option Bytes) (given : Given) (a : Auth)
      → IsSetUp u s h a
      → is_login u' p' ≡ false
      → login_password lib u' p' given.token a ≡ refused inval a
  unfolding login_password
  login-refused u' none given a set hidden = refl
  login-refused none (some p') given a set hidden =
      ground (arith, IsSetUp-setup_required u s h a set)
  login-refused (some u') (some p') given a set hidden =
      rw (login-IsSetUp lib u s h a u' p' given.token set, hidden) refl

  login_api_key-refused :
      (key : Option Bytes) (given : Given) (a : Auth)
      → validate_api_key lib key a ≡ false
      → login_api_key lib key given.token a ≡ refused inval a
  unfolding login_api_key
  login_api_key-refused key given a hidden = rw (hidden) refl

  -- The check turns such a client away.
  request-refused :
      (params : Option Json) (a : Auth)
      → IsSetUp u s h a
      → (known_session a (json_str params (codes "auth_token"))
          || validate_api_key lib (json_str params (codes "api_key")) a)
        ≡ false
      → request_authenticated lib a (some false) params ≡ (false, some false)
  unfolding request_authenticated validate_session
  request-refused params a set hidden = ground (arith, set.mode, hidden)

module _ {S : Type 0} where
  one_handler :
      (methods : Table (Handler S)) (method name : Bytes) (x y : Handler S)
      → method ≡ name
      → lookup method methods ≡ some x
      → lookup name methods ≡ some y
      → x ≡ y
  one_handler methods method name x y e here there = cc

  abbrev pub Unchanged : Server S → Outcome S → Type 0
  Unchanged server out = (out.0 ≡ server) × (out.1 ≡ some false)

module _ (lib : Library) (u s h : Bytes) {S : Type 0} (server : Server S) (given : Given)
    (id : Json) (params : Option Json) where
  setup-Unchanged :
      IsSetUp u s h server.auth
      → Unchanged server
          (checked lib id (codes "auth.setup") auth_setup given params server (some false))
  unfolding checked call handle_setup is_auth_method str_eq
  setup-Unchanged set = elim (Bool-cases (json_bool params (codes "passwordless"))) [
    | inl e ↦ rw (e, IsSetUp-setup_required u s h server.auth set) (refl, refl)
    | inr e ↦
        rw (e, setup-IsSetUp lib _ _ given.salt given.token given.can_write server.auth set)
          (refl, refl)
  ]

  status-Unchanged :
      Unchanged server
        (checked lib id (codes "auth.status") auth_status given params server (some false))
  unfolding checked call handle_status is_auth_method str_eq
  status-Unchanged = (refl, refl)

  login-Unchanged :
      IsSetUp u s h server.auth
      → is_login lib u s h (json_str params (codes "username")) (json_str params (codes "password"))
        ≡ false
      → Unchanged server
          (checked lib id (codes "auth.login") auth_login given params server (some false))
  unfolding checked call handle_login is_auth_method str_eq
  login-Unchanged set hidden =
      rw (login-refused lib u s h _ _ given server.auth set hidden) (refl, refl)

  login_api_key-Unchanged :
      validate_api_key lib (json_str params (codes "api_key")) server.auth ≡ false
      → Unchanged server (
          checked lib id
            (codes "auth.loginApiKey")
            auth_login_api_key
            given
            params
            server
            (some false))
  unfolding checked call handle_login_api_key is_auth_method str_eq
  login_api_key-Unchanged hidden =
      rw (login_api_key-refused lib u s h _ given server.auth hidden) (refl, refl)

  -- The other methods are called only after the check.
  other-Unchanged :
      (method : Bytes) (handler : Handler S)
      → IsSetUp u s h server.auth
      → is_auth_method method ≡ false
      → (known_session server.auth (json_str params (codes "auth_token"))
          || validate_api_key lib (json_str params (codes "api_key")) server.auth)
        ≡ false
      → Unchanged server (checked lib id method handler given params server (some false))
  unfolding checked
  other-Unchanged method handler set guarded hidden =
      rw (guarded, request-refused lib u s h params server.auth set hidden) (refl, refl)

  checked-Unchanged :
      (method : Bytes) (handler : Handler S)
      → IsSetUp u s h server.auth
      → IsGuarded server.methods
      → lookup method server.methods ≡ some handler
      → method_shows lib u s h server.auth method params ≡ false
      → Unchanged server (checked lib id method handler given params server (some false))
  unfolding is_auth_method
  checked-Unchanged method handler set guarded here hidden =
      elim (Bool-cases (str_eq method (codes "auth.status"))) [
        | inl e ↦
            let m = (str_eq_iff method (codes "auth.status")).0 e in
            let same : handler ≡ auth_status = one_handler _ _ _ _ _ m here guarded.status in
            rw (m, same) status-Unchanged
        | inr e1 ↦ elim (Bool-cases (str_eq method (codes "auth.setup"))) [
          | inl e ↦
              let m = (str_eq_iff method (codes "auth.setup")).0 e in
              let same : handler ≡ auth_setup = one_handler _ _ _ _ _ m here guarded.set_up in
              rw (m, same) (setup-Unchanged set)
          | inr e2 ↦ elim (Bool-cases (str_eq method (codes "auth.login"))) [
            | inl e ↦
                let m = (str_eq_iff method (codes "auth.login")).0 e in
                let same : handler ≡ auth_login = one_handler _ _ _ _ _ m here guarded.login in
                rw (m, same) (login-Unchanged set (sym (rw (e1, e2, e) refl) ∙ hidden))
            | inr e3 ↦ elim (Bool-cases (str_eq method (codes "auth.loginApiKey"))) [
              | inl e ↦
                  let m = (str_eq_iff method (codes "auth.loginApiKey")).0 e in
                  let same : handler ≡ auth_login_api_key =
                    one_handler _ _ _ _ _ m here guarded.key_login in
                  rw (m, same) (login_api_key-Unchanged (sym (rw (e1, e2, e3, e) refl) ∙ hidden))
              | inr e4 ↦
                  other-Unchanged method handler set (rw (e1, e2, e3, e4) refl)
                    (sym (rw (e1, e2, e3, e4) refl) ∙ hidden)
            ]
          ]
        ]
      ]

  named-Unchanged :
      (method : Option Bytes)
      → IsSetUp u s h server.auth
      → IsGuarded server.methods
      → named_shows lib u s h server.auth method params ≡ false
      → Unchanged server (named lib id method given params server (some false))
  named-Unchanged none set guarded hidden = (refl, refl)
  named-Unchanged (some method) set guarded hidden =
      elim (Option-cases (lookup method server.methods)) [
        | inl e ↦ rw (e) (refl, refl)
        | inr (handler, e) ↦ rw (e) (checked-Unchanged method handler set guarded e hidden)
      ]

module _ (lib : Library) (u s h : Bytes) {S : Type 0} where
  pub dispatch-Unchanged :
      (request : Option Json) (given : Given) (server : Server S)
      → IsSetUp u s h server.auth
      → IsGuarded server.methods
      → shows lib u s h server.auth request ≡ false
      → Unchanged server (dispatch lib request given server (some false))
  unfolding dispatch
  dispatch-Unchanged none given server set guarded hidden = (refl, refl)
  dispatch-Unchanged (some (object fs)) given server set guarded hidden =
      named-Unchanged lib u s h server given _ _ _ set guarded hidden
  dispatch-Unchanged (some _) given server set guarded hidden = (refl, refl)
