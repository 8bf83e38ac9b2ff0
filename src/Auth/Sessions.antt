-- ===== src/Auth/Sessions.antt =====
-- The sessions of any history: a token is one just if a login gave it and nothing since has revoked
-- the sessions.
use sbs_server.Prelude.{
  ℕ, ◌≡◌, refl, ap, inl, inr, Bool, true, false, not, ◌||◌, ◌&&◌, Option, none, some, List, [], ◌∷◌,
  if◌then◌else◌, is_some, Bool-cases, Option-cases, ◌∙◌, arith,
}
use sbs_server.Prelude.Bytes.{Bytes, str_eq, str_eq0}
use sbs_server.Table.{insert, contains, lookup}
use sbs_server.Table.Laws.{lookup-insert}
use sbs_server.Auth.Types.{Library, Draw, Code, inval, Auth}
use sbs_server.Auth.Secrets.{random_token}
use sbs_server.Auth.Config.{
  save_config, load_config, load_parsed, loaded, clear_config, new, passwordless, setup_required,
  written,
}
use sbs_server.Auth.Login.{
  Out, login_password, check_password, set_login, setup, update_credentials, set_passwordless,
  validate_session, is_blank, logged_in,
}
use sbs_server.Json.{Json}
use sbs_server.Auth.Kept.{made_key_reply-state, update_credentials-blank}
use sbs_server.Auth.Updates.{update-cases}
use sbs_server.Auth.Keys.{NewKey, login_api_key, create_api_key, delete_api_key, remove_key}
use sbs_server.Auth.History.{
  Op, set_up, login, login_key, create_key, delete_key, update, set_mode, edit, step, run, after,
  seen,
}

-- Whether an operation with a code has put all sessions out of force.
abbrev pub revokes : Op → Code → Bool
revokes (update u p salt token w) inval = false
revokes (update u p salt token w) code = true
revokes (set_mode b w) code = b
revokes op code = false

-- Whether a token was given since the sessions were last put out of force, the last operation first.
abbrev pub live : Bytes → List (Op × Code × Option Bytes) → Bool
live token [] = false
live token ((op, code, given) ∷ earlier) =
    str_eq0 given (some token) || (not (revokes op code) && live token earlier)

contains-insert :
    (k t : Bytes) (m : List (Bytes × ℕ)) → contains t (insert k 1 m) ≡ (str_eq k t || contains t m)
contains-insert k t m = ground (arith, lookup-insert k t 1 m)

-- A token is a session afterwards just if it was given, or by `b`.
abbrev Gives : Bytes → Bool → Out → Type 0
Gives t b out = contains t out.1.sessions ≡ (str_eq0 out.2 (some t) || b)

module _ (lib : Library) where
  check_password-Gives :
      (salt : Option Bytes) (p : Bytes) (d : Draw) (t : Bytes) (a : Auth)
      → Gives t (contains t a.sessions) (check_password lib salt p d a)
  unfolding check_password
  check_password-Gives none p d t a = refl
  check_password-Gives (some salt) p d t a =
      ground (arith, contains-insert (random_token lib 32 d) t a.sessions)

  login_password-Gives :
      (u p : Option Bytes) (d : Draw) (t : Bytes) (a : Auth)
      → Gives t (contains t a.sessions) (login_password lib u p d a)
  unfolding login_password
  login_password-Gives u none d t a = refl
  login_password-Gives u (some p) d t a =
      ground (arith, check_password-Gives a.password_salt p d t a)

  written-Gives :
      (w : Bool) (text : Option Bytes) (u p : Bytes) (d : Draw) (t : Bytes) (a : Auth)
      → Gives t (contains t a.sessions) (logged_in lib u p d (written w text a))
  written-Gives true none u p d t a = refl
  written-Gives true (some text) u p d t a =
      login_password-Gives (some u) (some p) d t (record a { file = some text })
  written-Gives false text u p d t a = refl

  setup-Gives :
      (u p : Option Bytes) (s d : Draw) (w : Bool) (t : Bytes) (a : Auth)
      → Gives t (contains t a.sessions) (setup lib u p s d w a)
  unfolding setup save_config clear_config set_login
  setup-Gives u p s d w t a =
      elim (Bool-cases (is_blank u || (is_blank p || not (setup_required a)))) [
        | inl e ↦ rw (e) refl
        | inr e ↦ rw (e) (written-Gives w _ _ _ d t _)
      ]

  login_api_key-Gives :
      (key : Option Bytes) (d : Draw) (t : Bytes) (a : Auth)
      → Gives t (contains t a.sessions) (login_api_key lib key d a)
  unfolding login_api_key
  login_api_key-Gives key d t a =
      ground (arith, contains-insert (random_token lib 32 d) t a.sessions)

  written-sessions :
      (w : Bool) (text : Option Bytes) (a : Auth) → (written w text a).1.sessions ≡ a.sessions
  written-sessions true none a = refl
  written-sessions true (some text) a = refl
  written-sessions false text a = refl

  -- With a user and a password, only the new token is a session afterwards.
  update-Gives :
      (u p : Option Bytes) (s d : Draw) (w : Bool) (t : Bytes) (a : Auth)
      → (is_blank u || is_blank p) ≡ false
      → Gives t false (update_credentials lib u p s d w a)
  unfolding update_credentials save_config set_login lookup
  update-Gives u p s d w t a e = rw (e) (written-Gives w _ _ _ d t _)

  set_passwordless-sessions :
      (b w : Bool) (a : Auth)
      → (set_passwordless lib b w a).1.sessions ≡ (if b then [] else a.sessions)
  unfolding set_passwordless save_config
  set_passwordless-sessions true w a = written-sessions w _ _
  set_passwordless-sessions false w a =
      elim (Bool-cases (not (is_some a.username) || not (is_some a.password_hash))) [
        | inl e ↦ rw (e) refl
        | inr e ↦ rw (e) (written-sessions w _ _)
      ]

  create_api_key-sessions :
      (name : Option Bytes) (given : NewKey) (w : Bool) (a : Auth)
      → (create_api_key lib name given w a).1.sessions ≡ a.sessions
  unfolding create_api_key save_config
  create_api_key-sessions name given w a = elim (Bool-cases (setup_required a)) [
    | inl e ↦ rw (e) refl
    | inr e ↦
        rw (e)
          (ap (λ x. x.sessions) (made_key_reply-state lib name given _) ∙ written-sessions w _ _)
  ]

  delete_api_key-sessions :
      (id : Option Bytes) (w : Bool) (a : Auth)
      → (delete_api_key lib id w a).1.sessions ≡ a.sessions
  unfolding delete_api_key save_config
  delete_api_key-sessions none w a = refl
  delete_api_key-sessions (some []) w a = refl
  delete_api_key-sessions (some (c ∷ id)) w a =
      elim (Option-cases (remove_key (c ∷ id) a.api_keys)) [
        | inl e ↦ rw (e) refl
        | inr (keys, e) ↦ rw (e) (written-sessions w _ _)
      ]

  abbrev StepGives : Bytes → Op → Auth → Type 0
  StepGives t op a =
      let out = step lib op a in
      contains t out.1.sessions
      ≡ (str_eq0 out.2 (some t) || (not (revokes op out.0) && contains t a.sessions))

  update-StepGives :
      (u p : Option Bytes) (s d : Draw) (w : Bool) (t : Bytes) (a : Auth)
      → StepGives t (update u p s d w) a
  unfolding step
  update-StepGives u p s d w t a = elim (Bool-cases (is_blank u || is_blank p)) [
    | inl e ↦ rw (update_credentials-blank lib u p s d w a (rw (e) refl)) refl
    | inr e ↦ elim (update-cases lib u p s d w a) [
      | inl (blank, _) ↦ cc
      | inr (inl (code, _)) ↦ rw (code) (update-Gives u p s d w t a e)
      | inr (inr code) ↦ rw (code) (update-Gives u p s d w t a e)
    ]
  ]

  step-StepGives : (op : Op) (t : Bytes) (a : Auth) → StepGives t op a
  unfolding step
  step-StepGives (set_up u p s d w) t a = setup-Gives u p s d w t a
  step-StepGives (login u p d) t a = login_password-Gives u p d t a
  step-StepGives (login_key key d) t a = login_api_key-Gives key d t a
  step-StepGives (create_key name given w) t a =
      ap (contains t) (create_api_key-sessions name given w a)
  step-StepGives (delete_key id w) t a = ap (contains t) (delete_api_key-sessions id w a)
  step-StepGives (update u p s d w) t a = update-StepGives u p s d w t a
  step-StepGives (set_mode true w) t a =
      unfold lookup in ap (contains t) (set_passwordless-sessions true w a)
  step-StepGives (set_mode false w) t a = ap (contains t) (set_passwordless-sessions false w a)
  step-StepGives (edit file) t a = refl

  load_parsed-sessions : (j : Option Json) (a : Auth) → (load_parsed j a).sessions ≡ a.sessions
  unfolding loaded
  load_parsed-sessions none a = refl
  load_parsed-sessions (some j) a = ground arith

  new-sessions : (file : Option Bytes) → (new lib file).sessions ≡ []
  unfolding new load_config clear_config
  new-sessions none = refl
  new-sessions (some text) = load_parsed-sessions _ _

  live-contains :
      (ops : List Op) (file : Option Bytes) (t : Bytes)
      → contains t (after lib ops file).sessions ≡ live t (seen lib ops file)
  unfolding run seen
  live-contains [] file t = unfold lookup in ap (contains t) (new-sessions file)
  live-contains (op ∷ ops) file t =
      step-StepGives op t (after lib ops file) ∙ rw (live-contains ops file t) refl

  -- After any history a token validates just if the server is passwordless, or a login gave the token
  -- since the sessions were last put out of force, which passwordless mode and every update of the
  -- credentials do that has a user and a password, whether or not it could be saved.
  pub validate_session-live :
      (ops : List Op) (file : Option Bytes) (t : Bytes)
      → validate_session (after lib ops file) (some t)
        ≡ (passwordless (after lib ops file) || live t (seen lib ops file))
  unfolding validate_session
  validate_session-live ops file t = ground (arith, live-contains ops file t)
