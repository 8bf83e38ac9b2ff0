-- ===== src/Auth/Kept.antt =====
-- A login in force stays in force until the credentials are set again, passwordless mode is chosen or
-- the file is removed.
use sbs_server.Prelude.{
  ℕ, ◌≡◌, refl, inl, inr, Bool, true, false, not, ◌||◌, Option, none, some, List, [], ◌∷◌, is_some,
  if_elim, Option-cases, ◌++◌, arith,
}
use sbs_server.Prelude.Bytes.{Bytes, codes, str_eq, str_eq0}
use sbs_server.Table.{Table}
use sbs_server.Auth.Types.{Library, Draw, Code, ok, inval, Auth, ApiKey}
use sbs_server.Auth.Secrets.{hash_secret, secure_equals}
use sbs_server.Auth.Config.{save_config, passwordless, setup_required, written}
use sbs_server.Auth.Login.{
  Out, refused, login_password, check_password, setup, update_credentials, set_passwordless,
  is_blank,
}
use sbs_server.Auth.Keys.{
  NewKey, login_api_key, create_api_key, delete_api_key, remove_key, made_key_reply,
  validate_api_key, new_key,
}
use sbs_server.Auth.History.{
  Op, set_up, login, login_key, create_key, delete_key, update, set_mode, edit, step, without_token,
}
use sbs_server.Auth.Credentials.{IsSetUp, IsSetUp-setup_required}

-- Whether an operation sets the credentials, or may take them away.
abbrev pub changes_login : Op → Bool
changes_login (update u p salt token w) = not (is_blank u || is_blank p)
changes_login (set_mode b w) = b
changes_login (edit none) = true
changes_login op = false

-- The login stays in force.
abbrev Stays : Bytes → Bytes → Bytes → Out → Type 0
Stays u s h out = IsSetUp u s h out.1

abbrev StaysSet : Bytes → Bytes → Bytes → Code × Auth → Type 0
StaysSet u s h r = IsSetUp u s h r.1

token_state : (r : Code × Auth) → (without_token r).1 ≡ r.1
token_state (code, a) = refl

module _ {u s h : Bytes} where
  pub moved-IsSetUp :
      (keys : List ApiKey) (sessions : Table ℕ) (a : Auth)
      → IsSetUp u s h a
      → IsSetUp u s h (record a { api_keys = keys; sessions = sessions })
  unfolding passwordless
  moved-IsSetUp keys sessions a set = record {
    mode = set.mode;
    username = set.username;
    password_salt = set.password_salt;
    password_hash = set.password_hash;
    file = set.file;
  }

  edit-IsSetUp :
      (text : Bytes) (a : Auth) → IsSetUp u s h a → IsSetUp u s h (record a { file = some text })
  unfolding passwordless
  edit-IsSetUp text a set = record {
    mode = set.mode;
    username = set.username;
    password_salt = set.password_salt;
    password_hash = set.password_hash;
    file = refl;
  }

  password_mode-IsSetUp :
      (a : Auth) → IsSetUp u s h a → IsSetUp u s h (record a { mode = some (codes "password") })
  unfolding passwordless str_eq
  password_mode-IsSetUp a set = record {
    mode = refl;
    username = set.username;
    password_salt = set.password_salt;
    password_hash = set.password_hash;
    file = set.file;
  }

  written-IsSetUp :
      (w : Bool) (text : Option Bytes) (a : Auth)
      → IsSetUp u s h a
      → IsSetUp u s h (written w text a).1
  written-IsSetUp true none a set = set
  written-IsSetUp true (some text) a set = edit-IsSetUp text a set
  written-IsSetUp false text a set = set

module _ (lib : Library) where
  pub made_key_reply-state :
      (name : Option Bytes) (given : NewKey) (r : Code × Auth)
      → (made_key_reply lib name given r).1 ≡ r.1
  made_key_reply-state name given (ok, a) = refl
  made_key_reply-state name given (_, a) = refl

  create_api_key-state :
      (name : Option Bytes) (given : NewKey) (w : Bool) (a : Auth)
      → setup_required a ≡ false
      → (create_api_key lib name given w a).1
        ≡ (save_config lib w
            (record a { api_keys = a.api_keys ++ (new_key lib name given ∷ []) })).1
  unfolding create_api_key
  create_api_key-state name given w a e = rw (e) (made_key_reply-state name given _)

  pub update_credentials-blank :
      (u' p : Option Bytes) (salt token : Draw) (w : Bool) (a : Auth)
      → not (is_blank u' || is_blank p) ≡ false
      → update_credentials lib u' p salt token w a ≡ refused inval a
  unfolding update_credentials
  update_credentials-blank u' p salt token w a e = ground (arith, e)

module _ (lib : Library) {u s h : Bytes} where
  check_password-IsSetUp :
      (salt : Option Bytes) (p : Bytes) (d : Draw) (a : Auth)
      → IsSetUp u s h a
      → Stays u s h (check_password lib salt p d a)
  unfolding check_password
  check_password-IsSetUp none p d a set = set
  check_password-IsSetUp (some salt) p d a set =
      if_elim (Stays u s h) (not (secure_equals (some (hash_secret lib salt p)) a.password_hash))
        (λ _. set) (λ _. moved-IsSetUp _ _ a set)

  login_password-IsSetUp :
      (u' p : Option Bytes) (d : Draw) (a : Auth)
      → IsSetUp u s h a
      → Stays u s h (login_password lib u' p d a)
  unfolding login_password
  login_password-IsSetUp u' none d a set = set
  login_password-IsSetUp u' (some p) d a set =
      if_elim (Stays u s h) (setup_required a || (not (is_some u') || not (str_eq0 u' a.username)))
        (λ _. set) (λ _. check_password-IsSetUp a.password_salt p d a set)

  pub setup-IsSetUp :
      (u' p : Option Bytes) (salt token : Draw) (w : Bool) (a : Auth)
      → IsSetUp u s h a
      → setup lib u' p salt token w a ≡ refused inval a
  unfolding setup
  setup-IsSetUp u' p salt token w a set = ground (arith, IsSetUp-setup_required u s h a set)

  set_passwordless-IsSetUp :
      (w : Bool) (a : Auth) → IsSetUp u s h a → IsSetUp u s h (set_passwordless lib false w a).1
  unfolding set_passwordless save_config
  set_passwordless-IsSetUp w a set =
      if_elim (StaysSet u s h) (not (is_some a.username) || not (is_some a.password_hash))
        (λ _. set) (λ _. written-IsSetUp w _ _ (password_mode-IsSetUp a set))

  -- No other operation touches a login in force.
  pub step-IsSetUp :
      (op : Op) (a : Auth)
      → changes_login op ≡ false
      → IsSetUp u s h a
      → Stays u s h (step lib op a)
  unfolding step login_api_key save_config delete_api_key
  step-IsSetUp (set_up u' p salt token w) a keeps set =
      rw (setup-IsSetUp u' p salt token w a set) set
  step-IsSetUp (login u' p token) a keeps set = login_password-IsSetUp u' p token a set
  step-IsSetUp (login_key key token) a keeps set =
      if_elim (Stays u s h) (not (validate_api_key lib key a)) (λ _. set)
        (λ _. moved-IsSetUp _ _ a set)
  step-IsSetUp (create_key name given w) a keeps set =
      rw (create_api_key-state lib name given w a (IsSetUp-setup_required u s h a set))
        (written-IsSetUp w _ _ (moved-IsSetUp _ _ a set))
  step-IsSetUp (delete_key none w) a keeps set = set
  step-IsSetUp (delete_key (some []) w) a keeps set = set
  step-IsSetUp (delete_key (some (c ∷ id)) w) a keeps set =
      elim (Option-cases (remove_key (c ∷ id) a.api_keys)) [
        | inl e ↦ rw (e) set
        | inr (keys, e) ↦ rw (e) (written-IsSetUp w _ _ (moved-IsSetUp keys _ a set))
      ]
  step-IsSetUp (update u' p salt token w) a keeps set =
      rw (update_credentials-blank lib u' p salt token w a keeps) set
  step-IsSetUp (set_mode true w) a keeps set = cc
  step-IsSetUp (set_mode false w) a keeps set =
      rw (token_state (set_passwordless lib false w a)) (set_passwordless-IsSetUp w a set)
  step-IsSetUp (edit none) a keeps set = cc
  step-IsSetUp (edit (some text)) a keeps set = edit-IsSetUp text a set
