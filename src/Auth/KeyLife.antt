-- ===== src/Auth/KeyLife.antt =====
-- What clients can do with an API key from its making to its deletion.
use sbs_server.Prelude.{
  ◌≡◌, refl, sym, ◌∙◌, inl, inr, Bool, true, false, ◌||◌, Option, none, some, List, [], ◌∷◌,
  Bool-cases, ◌++◌, arith, All,
}
use sbs_server.Prelude.Bytes.{Bytes, str_eq, str_eq_refl}
use sbs_server.Auth.Types.{Library, ok, Auth, ApiKey}
use sbs_server.Auth.Secrets.{hash_secret, secure_equals-str_eq}
use sbs_server.Auth.Config.{save_config, setup_required, passwordless, written}
use sbs_server.Auth.Keys.{
  NewKey, create_api_key, delete_api_key, remove_key, matches, validate_api_key, new_key,
  new_secret, made_key_reply, shown_key,
}

IsSetUp-written :
    (keys : List ApiKey) (text : Bytes) (a : Auth)
    → setup_required a ≡ false
    → setup_required (record a { api_keys = keys; file = some text }) ≡ false
unfolding setup_required passwordless
IsSetUp-written keys text a e = ground (arith, e)

remove_key-append :
    (key : ApiKey) (keys : List ApiKey)
    → All (λ k. str_eq k.id key.id ≡ false) keys
    → remove_key key.id (keys ++ (key ∷ [])) ≡ some keys
unfolding remove_key
remove_key-append key [] fresh = rw (str_eq_refl key.id) refl
remove_key-append key (k ∷ keys) fresh = rw (fresh.0, remove_key-append key keys fresh.1) refl

module _ (lib : Library) where
  matches-append :
      (text : Bytes) (keys : List ApiKey) (key : ApiKey)
      → matches lib text (keys ++ (key ∷ []))
        ≡ (matches lib text keys || str_eq (hash_secret lib key.salt text) key.hash)
  unfolding matches
  matches-append text [] key =
      rw (secure_equals-str_eq (hash_secret lib key.salt text) key.hash) (ground arith)
  matches-append text (k ∷ keys) key = ground (arith, matches-append text keys key)

  made_key_reply-ok :
      (name : Option Bytes) (given : NewKey) (w : Bool) (text : Option Bytes) (a : Auth)
      → (made_key_reply lib name given (written w text a)).0 ≡ ok
      → (t : Bytes) × (made_key_reply lib name given (written w text a) ≡ (
        ok,
        record a { file = some t },
        some (new_secret lib given, shown_key (new_key lib name given)),
      ))
  made_key_reply-ok name given true none a done = cc
  made_key_reply-ok name given true (some text) a done = (text, refl)
  made_key_reply-ok name given false text a done = cc

  -- A successful call has made the key, and the file with it.
  pub create_api_key-ok :
      (name : Option Bytes) (given : NewKey) (w : Bool) (a : Auth)
      → (create_api_key lib name given w a).0 ≡ ok
      → (setup_required a ≡ false)
        × ((text : Bytes) × (create_api_key lib name given w a ≡ (
          ok,
          record a { api_keys = a.api_keys ++ (new_key lib name given ∷ []); file = some text },
          some (new_secret lib given, shown_key (new_key lib name given)),
        )))
  unfolding create_api_key save_config
  create_api_key-ok name given w a done = elim (Bool-cases (setup_required a)) [
    | inl e ↦ cc
    | inr e ↦ rw (e) (refl, made_key_reply-ok name given w _ _ (sym (rw (e) refl) ∙ done))
  ]

  validate_api_key-append :
      (key : ApiKey) (file text : Bytes) (a : Auth)
      → setup_required a ≡ false
      → validate_api_key lib
          (some text)
          (record a { api_keys = a.api_keys ++ (key ∷ []); file = some file })
        ≡ (validate_api_key lib (some text) a || str_eq (hash_secret lib key.salt text) key.hash)
  unfolding validate_api_key
  validate_api_key-append key file text a e =
      rw (IsSetUp-written (a.api_keys ++ (key ∷ [])) file a e, e)
        (matches-append text a.api_keys key)

  new_key-hash :
      (name : Option Bytes) (given : NewKey)
      → str_eq
          (hash_secret lib (new_key lib name given).salt (new_secret lib given))
          (new_key lib name given).hash
        ≡ true
  unfolding new_key
  new_key-hash name given = str_eq_refl _

  -- After a successful call of `create_api_key`, its text is a valid key, and any text is valid just
  -- if it was so before or has the salted hash of the new key.
  pub validate_api_key-create_api_key :
      (name : Option Bytes) (given : NewKey) (w : Bool) (a : Auth)
      → (create_api_key lib name given w a).0 ≡ ok
      → let out = create_api_key lib name given w a in
        (out.2 ≡ some (new_secret lib given, shown_key (new_key lib name given)))
        × (validate_api_key lib (some (new_secret lib given)) out.1 ≡ true)
        × ((text : Bytes)
            → validate_api_key lib (some text) out.1 ≡ (
                validate_api_key lib (some text) a
                || str_eq
                    (hash_secret lib (new_key lib name given).salt text)
                    (new_key lib name given).hash))
  validate_api_key-create_api_key name given w a done =
      let (e, (text, created)) = create_api_key-ok name given w a done in
      let valid : (s : Bytes)
          → validate_api_key lib (some s) (create_api_key lib name given w a).1 ≡ (
              validate_api_key lib (some s) a
              || str_eq (hash_secret lib (new_key lib name given).salt s)
                  (new_key lib name given).hash) =
        λ s. rw (created) (validate_api_key-append (new_key lib name given) text s a e) in
      (
        rw (created) refl,
        valid (new_secret lib given) ∙ rw (new_key-hash name given) (ground arith),
        valid,
      )

  deleted-ok :
      (w : Bool) (text : Option Bytes) (a : Auth)
      → (written w text a).0 ≡ ok
      → (t : Bytes) × (written w text a ≡ (ok, record a { file = some t }))
  deleted-ok true none a done = cc
  deleted-ok true (some text) a done = (text, refl)
  deleted-ok false text a done = cc

  delete_api_key-ok :
      (id : Bytes) (keys : List ApiKey) (w : Bool) (a : Auth)
      → remove_key id a.api_keys ≡ some keys
      → (delete_api_key lib (some id) w a).0 ≡ ok
      → (text : Bytes) × (delete_api_key lib (some id) w a
          ≡ (ok, record a { api_keys = keys; file = some text }))
  unfolding delete_api_key save_config
  delete_api_key-ok [] keys w a e done = cc
  delete_api_key-ok (c ∷ id) keys w a e done =
      rw (e) (deleted-ok w _ (record a { api_keys = keys }) (sym (rw (e) refl) ∙ done))

  validate_api_key-file :
      (file text : Bytes) (a : Auth)
      → setup_required a ≡ false
      → validate_api_key lib (some text) (record a { file = some file })
        ≡ validate_api_key lib (some text) a
  unfolding validate_api_key
  validate_api_key-file file text a e = rw (IsSetUp-written a.api_keys file a e, e) refl

  -- If a call makes a key whose identifier no other key has, and a call with that identifier deletes
  -- it, the keys are as before, and so is what validates.
  pub delete_api_key-create_api_key :
      (name : Option Bytes) (given : NewKey) (w w' : Bool) (a : Auth)
      → All (λ k. str_eq k.id (new_key lib name given).id ≡ false) a.api_keys
      → (create_api_key lib name given w a).0 ≡ ok
      → let a' = (create_api_key lib name given w a).1 in
        (delete_api_key lib (some (new_key lib name given).id) w' a').0 ≡ ok
        → let a'' = (delete_api_key lib (some (new_key lib name given).id) w' a').1 in
          (a''.api_keys ≡ a.api_keys)
          × ((text : Bytes)
              → validate_api_key lib (some text) a'' ≡ validate_api_key lib (some text) a)
  delete_api_key-create_api_key name given w w' a fresh created deleted =
      let key = new_key lib name given in
      let (e, (text, made)) = create_api_key-ok name given w a created in
      let removed : remove_key key.id (create_api_key lib name given w a).1.api_keys
          ≡ some a.api_keys =
        rw (made) (remove_key-append key a.api_keys fresh) in
      let (text', gone) = delete_api_key-ok key.id a.api_keys w' _ removed deleted in
      rw (gone) (refl, λ s. rw (made) (validate_api_key-file text' s a e))
