-- ===== src/Auth/Config.antt =====
-- auth.json, the configuration that it keeps, and the answers that depend on the configuration alone.
use sbs_server.Prelude.{
  ℕ, Bool, true, false, not, ◌||◌, Option, none, some, List, [], ◌∷◌, if◌then◌else◌, is_some,
}
use sbs_server.Prelude.Bytes.{Bytes, codes, str_eq0}
use sbs_server.Json.{
  Json, Items, Fields, num, str, bool, array, object, no_items, item, no_fields, field, object_item,
  string_value, is_object,
}
use sbs_server.Auth.Types.{Library, Code, ok, io, ApiKey, Auth}

-- The double 1.0, by its bits.
abbrev pub one : ℕ
one = 4607182418800017408

unfoldable pub clear_config : Auth → Auth
clear_config a = record a {
  mode = none;
  username = none;
  password_salt = none;
  password_hash = none;
  api_keys = [];
}

unfoldable pub clear_login_config : Auth → Auth
clear_login_config a = record a {
  mode = none;
  username = none;
  password_salt = none;
  password_hash = none;
}

-- `s ? s : fallback`
abbrev pub or_else : Option Bytes → Bytes → Bytes
or_else none fallback = fallback
or_else (some s) fallback = s

abbrev pub default_name : Bytes
default_name = codes "API Key"

-- `if (s) cJSON_AddStringToObject(obj, key, s)`, and then the fields that are added later.
abbrev pub add_optional : Bytes → Option Bytes → Fields → Fields
add_optional key none later = later
add_optional key (some s) later = field key (str s) later

-- The object of a key in the file.
unfoldable pub saved_key : ApiKey → Json
saved_key key = object (
    field (codes "id") (str key.id) (
      field (codes "name") (str (or_else key.name default_name)) (
        field (codes "salt") (str key.salt) (
          field (codes "hash") (str key.hash)
            (field (codes "created_at") (str (or_else key.created_at [])) no_fields)))))

unfoldable pub saved_keys : List ApiKey → Items
saved_keys [] = no_items
saved_keys (key ∷ keys) = item (saved_key key) (saved_keys keys)

-- The object that `save_config` prints.
unfoldable pub saved : Auth → Json
saved a = object (
    field (codes "schema_version") (num one) (
      field (codes "mode") (str (or_else a.mode (codes "password"))) (
        add_optional (codes "username") a.username (
          add_optional (codes "password_salt") a.password_salt (
            add_optional (codes "password_hash") a.password_hash
              (field (codes "api_keys") (array (saved_keys a.api_keys)) no_fields))))))

-- An object of `api_keys` in the file, if it is a key.
abbrev pub key_of : Option Bytes → Option Bytes → Option Bytes → Json → Option ApiKey
key_of (some id) (some salt) (some hash) j = some (record {
  id = id;
  name = some (or_else (string_value (object_item (codes "name") j)) default_name);
  salt = salt;
  hash = hash;
  created_at = some (or_else (string_value (object_item (codes "created_at") j)) []);
})
key_of id salt hash j = none

unfoldable pub loaded_key : Json → Option ApiKey
loaded_key j =
    key_of (string_value (object_item (codes "id") j)) (string_value (object_item (codes "salt") j))
      (string_value (object_item (codes "hash") j)) j

abbrev pub cons_some : Option ApiKey → List ApiKey → List ApiKey
cons_some none keys = keys
cons_some (some key) keys = key ∷ keys

unfoldable pub loaded_keys : Items → List ApiKey
loaded_keys no_items = []
loaded_keys (item j js) = cons_some (loaded_key j) (loaded_keys js)

abbrev pub keys_of : Option Json → List ApiKey
keys_of (some (array js)) = loaded_keys js
keys_of _ = []

-- What `load_config` takes from an object.
unfoldable pub loaded : Json → Auth → Auth
loaded j a = record a {
  mode = some (or_else (string_value (object_item (codes "mode") j)) (codes "password"));
  username = string_value (object_item (codes "username") j);
  password_salt = string_value (object_item (codes "password_salt") j);
  password_hash = string_value (object_item (codes "password_hash") j);
  api_keys = keys_of (object_item (codes "api_keys") j);
}

abbrev pub load_parsed : Option Json → Auth → Auth
load_parsed none a = a
load_parsed (some j) a = if is_object j then loaded j a else a

abbrev pub load_contents : Library → Option Bytes → Auth → Auth
load_contents lib none a = a
load_contents lib (some text) a = load_parsed (lib.parse text) a

unfoldable pub passwordless : Auth → Bool
passwordless a = str_eq0 a.mode (some (codes "passwordless"))

unfoldable pub setup_required : Auth → Bool
setup_required a =
    if passwordless a
    then false
    else (not (is_some a.username) || (not (is_some a.password_hash) || not (is_some a.file)))

-- `sbs_auth_manager_status_json`, and the fields that its callers add.
unfoldable pub status_json : Auth → Fields → Json
status_json a later = object (
    field (codes "passwordless") (bool (passwordless a)) (
      field (codes "setup_required") (bool (setup_required a)) (
        field (codes "auth_required") (bool (not (passwordless a)))
          (add_optional (codes "username") a.username later))))

-- `g_file_set_contents` puts all of the text in the file, or leaves the file as it was.
abbrev pub written : Bool → Option Bytes → Auth → Code × Auth
written true (some text) a = (ok, record a { file = some text })
written can_write text a = (io, a)

module _ (lib : Library) where
  -- `can_write`: whether `g_file_set_contents` succeeds.
  unfoldable pub save_config : Bool → Auth → Code × Auth
  save_config can_write a = written can_write (lib.print (saved a)) a

  unfoldable pub load_config : Auth → Auth
  load_config a = load_contents lib a.file (clear_config a)

  -- `sbs_auth_manager_new`, from the contents of auth.json.
  unfoldable pub new : Option Bytes → Auth
  new file = load_config (record {
    mode = none;
    username = none;
    password_salt = none;
    password_hash = none;
    api_keys = [];
    sessions = [];
    file = file;
  })
