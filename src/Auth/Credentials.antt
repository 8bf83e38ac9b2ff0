-- ===== src/Auth/Credentials.antt =====
-- Who can log in: one user, with a password of one salted hash, from the time that the credentials
-- are set and until they are set again.
use sbs_server.Prelude.{◌≡◌, refl, ◌∙◌, true, false, ◌&&◌, some, if◌then◌else◌, is_some, arith}
use sbs_server.Prelude.Bytes.{Bytes, str_eq, str_eq_refl}
use sbs_server.Auth.Types.{Library, Draw, inval, Auth}
use sbs_server.Auth.Secrets.{random_token, hash_secret, secure_equals-str_eq}
use sbs_server.Auth.Config.{passwordless, setup_required}
use sbs_server.Auth.Login.{open_session, refused, login_password, check_password, set_login}

-- A login in force, with a file.
pub record IsSetUp (user salt hash : Bytes) (a : Auth) : Type 0 where
  pub mode : passwordless a ≡ false
  pub username : a.username ≡ some user
  pub password_salt : a.password_salt ≡ some salt
  pub password_hash : a.password_hash ≡ some hash
  pub file : is_some a.file ≡ true

pub IsSetUp-setup_required : (u s h : Bytes) (a : Auth) → IsSetUp u s h a → setup_required a ≡ false
unfolding setup_required
IsSetUp-setup_required u s h a set = rw (set.mode, set.username, set.password_hash, set.file) refl

module _ (lib : Library) where
  pub login-IsSetUp :
      (u s h : Bytes) (a : Auth) (u' p' : Bytes) (d : Draw)
      → IsSetUp u s h a
      → login_password lib (some u') (some p') d a ≡ (
          if str_eq u' u && str_eq (hash_secret lib s p') h
          then open_session (random_token lib 32 d) a
          else refused inval a)
  unfolding login_password check_password
  login-IsSetUp u s h a u' p' d set =
      rw
        (
          IsSetUp-setup_required u s h a set,
          set.username,
          set.password_salt,
          set.password_hash,
          secure_equals-str_eq (hash_secret lib s p') h,
        )
        (ground arith)

  pub set_login-IsSetUp :
      (u p : Bytes) (d : Draw) (a : Auth) (text : Bytes)
      → IsSetUp u
          (random_token lib 18 d)
          (hash_secret lib (random_token lib 18 d) p)
          (record (set_login lib u p d a) { file = some text })
  unfolding set_login passwordless str_eq
  set_login-IsSetUp u p d a text = record {
    mode = refl;
    username = refl;
    password_salt = refl;
    password_hash = refl;
    file = refl;
  }

  pub logged_in-set_login :
      (u p : Bytes) (s d : Draw) (a : Auth) (text : Bytes)
      → let a' : Auth = record (set_login lib u p s a) { file = some text } in
        login_password lib (some u) (some p) d a' ≡ open_session (random_token lib 32 d) a'
  logged_in-set_login u p s d a text =
      let salt = random_token lib 18 s in
      login-IsSetUp u salt (hash_secret lib salt p) _ u p d (set_login-IsSetUp u p s a text)
      ∙ rw (str_eq_refl u, str_eq_refl (hash_secret lib salt p)) refl
