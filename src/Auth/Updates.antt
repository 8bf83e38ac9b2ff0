-- ===== src/Auth/Updates.antt =====
-- Who can log in after the credentials have been updated.
use sbs_server.Prelude.{
  ◌≡◌, refl, ◌⊎◌, inl, inr, Bool, true, false, ◌||◌, ◌&&◌, Option, none, some, List, [], ◌∷◌, ◌↔◌,
  if◌then◌else◌, Bool-cases, arith, All,
}
use sbs_server.Prelude.Bytes.{Bytes, str_eq, str_eq_iff}
use sbs_server.Auth.Types.{Library, Draw, ok, inval, io, Auth}
use sbs_server.Auth.Secrets.{random_token, hash_secret}
use sbs_server.Auth.Config.{save_config, clear_login_config, written}
use sbs_server.Auth.Login.{
  open_session, refused, login_password, set_login, update_credentials, logged_in, is_blank,
  text_of,
}
use sbs_server.Auth.History.{Op, run}
use sbs_server.Auth.Credentials.{IsSetUp, set_login-IsSetUp, login-IsSetUp, logged_in-set_login}
use sbs_server.Auth.Kept.{changes_login, step-IsSetUp, moved-IsSetUp}

module _ (lib : Library) where
  -- The salt that an update draws, and the hash that it keeps.
  abbrev pub new_salt : Draw → Bytes
  new_salt salt = random_token lib 18 salt

  login_ok_iff :
      (u' u h' h token : Bytes) (a : Auth)
      → ((if str_eq u' u && str_eq h' h then open_session token a else refused inval a).0 ≡ ok)
        ↔ ((u' ≡ u) × (h' ≡ h))
  login_ok_iff u' u h' h token a = ground (arith, str_eq_iff u' u, str_eq_iff h' h)

  run-IsSetUp :
      {u s h : Bytes} (ops : List Op) (a : Auth)
      → All (λ op. changes_login op ≡ false) ops
      → IsSetUp u s h a
      → IsSetUp u s h (run lib ops a)
  unfolding run
  run-IsSetUp [] a keeps set = set
  run-IsSetUp (op ∷ ops) a keeps set =
      step-IsSetUp lib op (run lib ops a) keeps.0 (run-IsSetUp ops a keeps.1 set)

  -- The login at the end of an update succeeds.
  logged_in-written :
      (u p : Bytes) (s d : Draw) (w : Bool) (text : Option Bytes) (a : Auth)
      → let out = logged_in lib u p d (written w text (set_login lib u p s a)) in
        ((out.0 ≡ ok) × IsSetUp u (new_salt s) (hash_secret lib (new_salt s) p) out.1)
        ⊎ (out.0 ≡ io)
  logged_in-written u p s d true none a = inr refl
  logged_in-written u p s d true (some text) a = inl (
      rw (logged_in-set_login lib u p s d a text)
        (refl, moved-IsSetUp _ _ _ (set_login-IsSetUp lib u p s a text)))
  logged_in-written u p s d false text a = inr refl

  -- With a user and a password, an update succeeds, or the file was not written.
  pub update-cases :
      (u p : Option Bytes) (s d : Draw) (w : Bool) (a : Auth)
      → let out = update_credentials lib u p s d w a in
        ((is_blank u || is_blank p) ≡ true) × (out ≡ refused inval a)
        ⊎ (((out.0 ≡ ok)
              × IsSetUp (text_of u) (new_salt s) (hash_secret lib (new_salt s) (text_of p)) out.1)
            ⊎ (out.0 ≡ io))
  unfolding update_credentials save_config set_login
  update-cases u p s d w a = elim (Bool-cases (is_blank u || is_blank p)) [
    | inl e ↦ inl (e, rw (e) refl)
    | inr e ↦ inr (
        rw (e) (
          logged_in-written (text_of u) (text_of p) s d w _
            (record (clear_login_config a) { sessions = [] })))
  ]

  -- After a successful update and then any operations that do not set the credentials again, choose
  -- passwordless mode or remove the file, a login succeeds just if it has the user of the update and
  -- a password with the same salted hash as the password of the update.
  pub login-update_credentials :
      (u p u' p' : Bytes) (salt token draw : Draw) (w : Bool) (ops : List Op) (a : Auth)
      → (update_credentials lib (some u) (some p) salt token w a).0 ≡ ok
      → All (λ op. changes_login op ≡ false) ops
      → let a' = run lib ops (update_credentials lib (some u) (some p) salt token w a).1 in
        ((login_password lib (some u') (some p') draw a').0 ≡ ok)
        ↔ ((u' ≡ u) × (hash_secret lib (new_salt salt) p' ≡ hash_secret lib (new_salt salt) p))
  login-update_credentials u p u' p' salt token draw w ops a done keeps =
      elim (update-cases (some u) (some p) salt token w a) [
        | inl (blank, e) ↦ cc
        | inr (inr failed) ↦ cc
        | inr (inl (_, set)) ↦
            rw (login-IsSetUp lib u (new_salt salt) _ _ u' p' draw (run-IsSetUp ops _ keeps set))
              (login_ok_iff u' u _ _ _ _)
      ]
