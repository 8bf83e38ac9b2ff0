-- ===== src/Auth/Reload.antt =====
-- The configuration survives a restart of the server.
use sbs_server.Prelude.{
  ◌≡◌, refl, sym, ◌∙◌, Bool, true, false, Option-cases, inl, inr, Option, none, some, List, [], ◌∷◌,
  map,
}
use sbs_server.Prelude.Bytes.{Bytes, codes, str_eq}
use sbs_server.Auth.Types.{Library, ok, io, Auth, ApiKey}
use sbs_server.Auth.Config.{
  save_config, load_config, loaded, loaded_keys, loaded_key, saved, saved_keys, saved_key, new,
  clear_config, or_else, default_name,
}

-- A key as the file keeps it.
abbrev pub with_texts : ApiKey → ApiKey
with_texts key = record key {
  name = some (or_else key.name default_name);
  created_at = some (or_else key.created_at []);
}

-- The configuration as the file keeps it, without sessions.
abbrev pub restarted : Auth → Auth
restarted a = record a {
  mode = some (or_else a.mode (codes "password"));
  api_keys = map with_texts a.api_keys;
  sessions = [];
}

loaded_key-saved_key : (key : ApiKey) → loaded_key (saved_key key) ≡ some (with_texts key)
unfolding loaded_key saved_key str_eq
loaded_key-saved_key key = refl

loaded_keys-saved_keys : (keys : List ApiKey) → loaded_keys (saved_keys keys) ≡ map with_texts keys
unfolding loaded_keys saved_keys
loaded_keys-saved_keys [] = refl
loaded_keys-saved_keys (key ∷ keys) =
    rw (loaded_key-saved_key key, loaded_keys-saved_keys keys) refl

abbrev login_of : Option Bytes → Option Bytes → Option Bytes → Auth → Auth
login_of u s h a = record a { username = u; password_salt = s; password_hash = h }

-- The fields that are there are found, and only those.
loaded-saved :
    (u s h : Option Bytes) (a b : Auth)
    → loaded (saved (login_of u s h a)) b
      ≡ record (restarted (login_of u s h a)) { sessions = b.sessions; file = b.file }
unfolding loaded saved str_eq
loaded-saved none none none a b = rw (loaded_keys-saved_keys a.api_keys) refl
loaded-saved none none (some h) a b = rw (loaded_keys-saved_keys a.api_keys) refl
loaded-saved none (some s) none a b = rw (loaded_keys-saved_keys a.api_keys) refl
loaded-saved none (some s) (some h) a b = rw (loaded_keys-saved_keys a.api_keys) refl
loaded-saved (some u) none none a b = rw (loaded_keys-saved_keys a.api_keys) refl
loaded-saved (some u) none (some h) a b = rw (loaded_keys-saved_keys a.api_keys) refl
loaded-saved (some u) (some s) none a b = rw (loaded_keys-saved_keys a.api_keys) refl
loaded-saved (some u) (some s) (some h) a b = rw (loaded_keys-saved_keys a.api_keys) refl

module _ (lib : Library) where
  new-text :
      (a : Auth) (text : Bytes)
      → lib.parse text ≡ some (saved a)
      → new lib (some text) ≡ record (restarted a) { file = some text }
  unfolding new load_config clear_config saved
  new-text a text e = rw (e) (loaded-saved a.username a.password_salt a.password_hash a _)

  -- If the parser reads what the printer wrote of the configuration, a server that starts from the file of a
  -- successful `save_config` has the configuration that was saved, names and dates of keys and the
  -- mode given where they were missing, and no sessions.
  pub new-save_config :
      (can_write : Bool) (a : Auth)
      → ((text : Bytes) → lib.print (saved a) ≡ some text → lib.parse text ≡ some (saved a))
      → (save_config lib can_write a).0 ≡ ok
      → new lib (save_config lib can_write a).1.file ≡ restarted (save_config lib can_write a).1
  unfolding save_config
  new-save_config false a reads done = cc
  new-save_config true a reads done = elim (Option-cases (lib.print (saved a))) [
    | inl e ↦ let failed : io ≡ ok = sym (rw (e) refl) ∙ done in cc
    | inr (text, e) ↦ rw (e) (new-text a text (reads text e))
  ]
