-- ===== src/Auth/Keys.antt =====
-- API keys: made, listed, deleted, and shown by clients.
use sbs_server.Prelude.{
  Bool, false, not, ◌||◌, Option, none, some, List, [], ◌∷◌, ◌++◌, if◌then◌else◌,
}
use sbs_server.Prelude.Bytes.{Bytes, codes, str_eq}
use sbs_server.Json.{Json, Items, str, array, object, no_items, item, no_fields, field}
use sbs_server.Auth.Types.{Library, Draw, Code, ok, inval, io, not_found, ApiKey, Auth}
use sbs_server.Auth.Secrets.{random_token, hash_secret, secure_equals}
use sbs_server.Auth.Config.{or_else, default_name, save_config, setup_required}
use sbs_server.Auth.Login.{Out, open_session, refused}

-- What of a key `list_api_keys` and `create_api_key` show.
unfoldable pub shown_key : ApiKey → Json
shown_key key = object (
    field (codes "id") (str key.id) (
      field (codes "name") (str (or_else key.name default_name))
        (field (codes "created_at") (str (or_else key.created_at [])) no_fields)))

unfoldable pub shown_keys : List ApiKey → Items
shown_keys [] = no_items
shown_keys (key ∷ keys) = item (shown_key key) (shown_keys keys)

-- `sbs_auth_manager_list_api_keys`
unfoldable pub list_api_keys : Auth → Json
list_api_keys a = array (shown_keys a.api_keys)

abbrev pub before : ApiKey → Option (List ApiKey) → Option (List ApiKey)
before key none = none
before key (some keys) = some (key ∷ keys)

-- The first key of an id is taken out, if there is one.
unfoldable pub remove_key : Bytes → List ApiKey → Option (List ApiKey)
remove_key id [] = none
remove_key id (key ∷ keys) =
    let rest = before key (remove_key id keys) in if str_eq key.id id then some keys else rest

-- `name && *name ? name : "API Key"`
abbrev pub name_of : Option Bytes → Bytes
name_of none = default_name
name_of (some []) = default_name
name_of (some (c ∷ s)) = c ∷ s

-- The draws of the three calls of `random_token`, and what `now_iso8601` gives.
pub record NewKey : Type 0 where
  pub secret : Draw
  pub id : Draw
  pub salt : Draw
  pub now : Bytes

module _ (lib : Library) where
  unfoldable pub matches : Bytes → List ApiKey → Bool
  matches api_key [] = false
  matches api_key (key ∷ keys) =
      secure_equals (some (hash_secret lib key.salt api_key)) (some key.hash)
      || matches api_key keys

  unfoldable pub validate_api_key : Option Bytes → Auth → Bool
  validate_api_key none a = false
  validate_api_key (some api_key) a = if setup_required a then false else matches api_key a.api_keys

  unfoldable pub login_api_key : Option Bytes → Draw → Auth → Out
  login_api_key api_key draw a =
      if not (validate_api_key api_key a)
      then refused inval a
      else open_session (random_token lib 32 draw) a

  unfoldable pub new_secret : NewKey → Bytes
  new_secret given = codes "sbs_" ++ random_token lib 32 given.secret

  unfoldable pub new_key : Option Bytes → NewKey → ApiKey
  new_key name given =
      let salt = random_token lib 18 given.salt in
      record {
        id = random_token lib 12 given.id;
        name = some (name_of name);
        salt = salt;
        hash = hash_secret lib salt (new_secret given);
        created_at = some given.now;
      }

  -- With the key's text and what is shown of it.
  abbrev pub Made : Type 0
  Made = Code × Auth × Option (Bytes × Json)

  abbrev pub made_key_reply : Option Bytes → NewKey → Code × Auth → Made
  made_key_reply name given (ok, a) =
      (ok, a, some (new_secret given, shown_key (new_key name given)))
  made_key_reply name given (code, a) = (io, a, none)

  unfoldable pub create_api_key : Option Bytes → NewKey → Bool → Auth → Made
  create_api_key name given can_write a =
      if setup_required a
      then (inval, a, none)
      else (let a' = record a { api_keys = a.api_keys ++ (new_key name given ∷ []) } in
          made_key_reply name given (save_config lib can_write a'))

  abbrev pub delete_found : Bool → Auth → Option (List ApiKey) → Code × Auth
  delete_found can_write a none = (not_found, a)
  delete_found can_write a (some keys) = save_config lib can_write (record a { api_keys = keys })

  unfoldable pub delete_api_key : Option Bytes → Bool → Auth → Code × Auth
  delete_api_key none can_write a = (inval, a)
  delete_api_key (some []) can_write a = (inval, a)
  delete_api_key (some (c ∷ id)) can_write a =
      delete_found can_write a (remove_key (c ∷ id) a.api_keys)
