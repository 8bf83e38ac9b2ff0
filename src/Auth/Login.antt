-- ===== src/Auth/Login.antt =====
-- Logins, sessions, and the operations that change the login.
use sbs_server.Prelude.{
  Bool, true, false, not, ◌||◌, Option, none, some, [], ◌∷◌, if◌then◌else◌, is_some,
}
use sbs_server.Prelude.Bytes.{Bytes, codes, str_eq0}
use sbs_server.Table.{insert, contains}
use sbs_server.Auth.Types.{Library, Draw, Code, ok, inval, io, segfault, Auth}
use sbs_server.Auth.Secrets.{random_token, hash_secret, secure_equals}
use sbs_server.Auth.Config.{
  clear_config, clear_login_config, save_config, passwordless, setup_required,
}

-- What an operation leaves: its code, the state, and the token that it gives, if it gives one.
abbrev pub Out : Type 0
Out = Code × Auth × Option Bytes

-- `!s || !*s`
abbrev pub is_blank : Option Bytes → Bool
is_blank none = true
is_blank (some []) = true
is_blank (some (c ∷ s)) = false

abbrev pub known_session : Auth → Option Bytes → Bool
known_session a none = false
known_session a (some token) = contains token a.sessions

unfoldable pub validate_session : Auth → Option Bytes → Bool
validate_session a token = if passwordless a then true else known_session a token

abbrev pub text_of : Option Bytes → Bytes
text_of none = []
text_of (some s) = s

-- The changes to a session of a token, at the end of a login.
abbrev pub open_session : Bytes → Auth → Out
open_session token a = (ok, record a { sessions = insert token 1 a.sessions }, some token)

abbrev pub refused : Code → Auth → Out
refused code a = (code, a, none)

module _ (lib : Library) where
  -- From the call of `hash_secret`, which reads through a salt that is NULL.
  unfoldable pub check_password : Option Bytes → Bytes → Draw → Auth → Out
  check_password none password draw a = refused segfault a
  check_password (some salt) password draw a =
      if not (secure_equals (some (hash_secret lib salt password)) a.password_hash)
      then refused inval a
      else open_session (random_token lib 32 draw) a

  unfoldable pub login_password : Option Bytes → Option Bytes → Draw → Auth → Out
  login_password username none draw a = refused inval a
  login_password username (some password) draw a =
      if setup_required a || (not (is_some username) || not (str_eq0 username a.username))
      then refused inval a
      else check_password a.password_salt password draw a

  -- The login that `setup` and `update_credentials` make.
  unfoldable pub set_login : Bytes → Bytes → Draw → Auth → Auth
  set_login username password draw a =
      let salt = random_token lib 18 draw in
      record a {
        mode = some (codes "password");
        username = some username;
        password_salt = some salt;
        password_hash = some (hash_secret lib salt password);
      }

  abbrev pub logged_in : Bytes → Bytes → Draw → Code × Auth → Out
  logged_in username password draw (ok, a) = login_password (some username) (some password) draw a
  logged_in username password draw (code, a) = refused io a

  -- `salt` and `token` are the draws of the two calls of `random_token`.
  unfoldable pub setup : Option Bytes → Option Bytes → Draw → Draw → Bool → Auth → Out
  setup username password salt token can_write a =
      if is_blank username || (is_blank password || not (setup_required a))
      then refused inval a
      else (let user = text_of username in
          let pass = text_of password in
          let a' = set_login user pass salt (clear_config a) in
          logged_in user pass token (save_config lib can_write a'))

  unfoldable pub update_credentials : Option Bytes → Option Bytes → Draw → Draw → Bool → Auth → Out
  update_credentials username password salt token can_write a =
      if is_blank username || is_blank password
      then refused inval a
      else (let user = text_of username in
          let pass = text_of password in
          let a' = set_login user pass salt (clear_login_config a) in
          logged_in user pass token (save_config lib can_write (record a' { sessions = [] })))

  unfoldable pub set_passwordless : Bool → Bool → Auth → Code × Auth
  set_passwordless true can_write a =
      save_config lib can_write
        (record (clear_login_config a) { mode = some (codes "passwordless"); sessions = [] })
  set_passwordless false can_write a =
      if not (is_some a.username) || not (is_some a.password_hash)
      then (inval, a)
      else save_config lib can_write (record a { mode = some (codes "password") })
