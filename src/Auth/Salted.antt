-- ===== src/Auth/Salted.antt =====
-- When `hash_secret` has a salt to read.
use sbs_server.Prelude.{
  ◌≡◌, ◌≢◌, refl, inl, inr, Bool, true, false, not, ◌||◌, Option, none, some, List, [], ◌∷◌,
  is_some, Bool-cases, Option-cases, arith,
}
use sbs_server.Prelude.Bytes.{Bytes}
use sbs_server.Auth.Types.{Library, Draw, Code, segfault, Auth}
use sbs_server.Auth.Config.{save_config, clear_login_config, written, setup_required, new}
use sbs_server.Auth.Login.{
  Out, login_password, check_password, set_login, setup, update_credentials, set_passwordless,
  logged_in, is_blank,
}
use sbs_server.Auth.Keys.{
  NewKey, create_api_key, delete_api_key, remove_key, login_api_key, made_key_reply,
}
use sbs_server.Auth.History.{
  Op, set_up, login, login_key, create_key, delete_key, update, set_mode, edit, step, run, after,
  without_key,
}

-- A state with a user has a salt.
abbrev pub salted : Auth → Bool
salted a = not (is_some a.username) || is_some a.password_salt

abbrev crashed : Code → Bool
crashed segfault = true
crashed code = false

-- The state has a salt for its user, and the process goes on.
abbrev Safe : Code × Auth → Type 0
Safe r = (salted r.1 ≡ true) × (crashed r.0 ≡ false)

abbrev SafeOut : Out → Type 0
SafeOut out = (salted out.1 ≡ true) × (crashed out.0 ≡ false)

written-Safe :
    (w : Bool) (text : Option Bytes) (a : Auth) → salted a ≡ true → Safe (written w text a)
written-Safe true none a h = (h, refl)
written-Safe true (some text) a h = (h, refl)
written-Safe false text a h = (h, refl)

module _ (lib : Library) where
  check_password-Safe :
      (salt : Option Bytes) (p : Bytes) (d : Draw) (a : Auth)
      → is_some salt ≡ true
      → salted a ≡ true
      → SafeOut (check_password lib salt p d a)
  unfolding check_password
  check_password-Safe none p d a there h = cc
  check_password-Safe (some salt) p d a _ h = ground (arith, h)

  login_password-Safe :
      (u p : Option Bytes) (d : Draw) (a : Auth)
      → salted a ≡ true
      → SafeOut (login_password lib u p d a)
  unfolding login_password
  login_password-Safe u none d a h = (h, refl)
  login_password-Safe none (some p) d a h = ground (arith, h)
  login_password-Safe (some u) (some p) d a h =
      ground (arith, h, check_password-Safe a.password_salt p d a)

  logged_in-Safe :
      (w : Bool) (text : Option Bytes) (u p : Bytes) (d : Draw) (a : Auth)
      → salted a ≡ true
      → SafeOut (logged_in lib u p d (written w text a))
  logged_in-Safe true none u p d a h = (h, refl)
  logged_in-Safe true (some text) u p d a h = login_password-Safe (some u) (some p) d _ h
  logged_in-Safe false text u p d a h = (h, refl)

  setup-Safe :
      (u p : Option Bytes) (s d : Draw) (w : Bool) (a : Auth)
      → salted a ≡ true
      → SafeOut (setup lib u p s d w a)
  unfolding setup save_config set_login
  setup-Safe u p s d w a h =
      elim (Bool-cases (is_blank u || (is_blank p || not (setup_required a)))) [
        | inl e ↦ rw (e) (h, refl)
        | inr e ↦ rw (e) (logged_in-Safe w _ _ _ d _ refl)
      ]

  update_credentials-Safe :
      (u p : Option Bytes) (s d : Draw) (w : Bool) (a : Auth)
      → salted a ≡ true
      → SafeOut (update_credentials lib u p s d w a)
  unfolding update_credentials save_config set_login
  update_credentials-Safe u p s d w a h = elim (Bool-cases (is_blank u || is_blank p)) [
    | inl e ↦ rw (e) (h, refl)
    | inr e ↦ rw (e) (logged_in-Safe w _ _ _ d _ refl)
  ]

  set_passwordless-Safe :
      (b w : Bool) (a : Auth) → salted a ≡ true → Safe (set_passwordless lib b w a)
  unfolding set_passwordless save_config clear_login_config
  set_passwordless-Safe true w a h = written-Safe w _ _ refl
  set_passwordless-Safe false w a h =
      elim (Bool-cases (not (is_some a.username) || not (is_some a.password_hash))) [
        | inl e ↦ rw (e) (h, refl)
        | inr e ↦ rw (e) (written-Safe w _ _ h)
      ]

  made_key_reply-Safe :
      (name : Option Bytes) (given : NewKey) (w : Bool) (text : Option Bytes) (a : Auth)
      → salted a ≡ true
      → SafeOut (without_key (made_key_reply lib name given (written w text a)))
  made_key_reply-Safe name given true none a h = (h, refl)
  made_key_reply-Safe name given true (some text) a h = (h, refl)
  made_key_reply-Safe name given false text a h = (h, refl)

  create_api_key-Safe :
      (name : Option Bytes) (given : NewKey) (w : Bool) (a : Auth)
      → salted a ≡ true
      → SafeOut (without_key (create_api_key lib name given w a))
  unfolding create_api_key save_config
  create_api_key-Safe name given w a h = elim (Bool-cases (setup_required a)) [
    | inl e ↦ rw (e) (h, refl)
    | inr e ↦ rw (e) (made_key_reply-Safe name given w _ _ h)
  ]

  delete_api_key-Safe :
      (id : Option Bytes) (w : Bool) (a : Auth) → salted a ≡ true → Safe (delete_api_key lib id w a)
  unfolding delete_api_key save_config
  delete_api_key-Safe none w a h = (h, refl)
  delete_api_key-Safe (some []) w a h = (h, refl)
  delete_api_key-Safe (some (c ∷ id)) w a h = elim (Option-cases (remove_key (c ∷ id) a.api_keys)) [
    | inl e ↦ rw (e) (h, refl)
    | inr (keys, e) ↦ rw (e) (written-Safe w _ _ h)
  ]

  step-Safe : (op : Op) (a : Auth) → salted a ≡ true → SafeOut (step lib op a)
  unfolding step login_api_key
  step-Safe (set_up u p s d w) a h = setup-Safe u p s d w a h
  step-Safe (login u p d) a h = login_password-Safe u p d a h
  step-Safe (login_key key d) a h = ground (arith, h)
  step-Safe (create_key name given w) a h = create_api_key-Safe name given w a h
  step-Safe (delete_key id w) a h = delete_api_key-Safe id w a h
  step-Safe (update u p s d w) a h = update_credentials-Safe u p s d w a h
  step-Safe (set_mode b w) a h = set_passwordless-Safe b w a h
  step-Safe (edit file) a h = (h, refl)

  run-salted : (ops : List Op) (a : Auth) → salted a ≡ true → salted (run lib ops a) ≡ true
  unfolding run
  run-salted [] a h = h
  run-salted (op ∷ ops) a h = (step-Safe op (run lib ops a) (run-salted ops a h)).0

  -- If the file that the server starts with gives a salt with its user, or no user, no operation of
  -- any history reads through a salt that is NULL, whatever becomes of the file later.
  pub step-ne-segfault :
      (file : Option Bytes) (ops : List Op) (op : Op)
      → salted (new lib file) ≡ true
      → (step lib op (after lib ops file)).0 ≢ segfault
  step-ne-segfault file ops op h e =
      let alive = (step-Safe op (after lib ops file) (run-salted ops (new lib file) h)).1 in cc
