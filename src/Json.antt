-- ===== src/Json.antt =====
-- The values of libcjson, as the server reads and makes them. Text is made and read by the library,
-- which is a parameter where it is used.
pub mod Text
pub mod Parse
pub mod Finite
pub mod Reading
pub mod RoundTrip
pub mod Rest
pub mod Left
pub mod Enough
mod Tests
use sbs_server.Prelude.{ℕ, Bool, true, false, Option, none, some, if◌then◌else◌}
use sbs_server.Prelude.Bytes.{Bytes, str_eq}

-- `cJSON`: the items of an array and the fields of an object are lists of their own.
mutual
  pub data Json : Type 0 where
    null : Json
    bool : Bool → Json
    num : ℕ → Json
    str : Bytes → Json
    array : Items → Json
    object : Fields → Json

  pub data Items : Type 0 where
    no_items : Items
    item : Json → Items → Items

  pub data Fields : Type 0 where
    no_fields : Fields
    field : Bytes → Json → Fields → Fields

-- The first field of a name.
abbrev pub find_field : Bytes → Fields → Option Json
find_field key no_fields = none
find_field key (field k v fs) =
    let rest = find_field key fs in if str_eq k key then some v else rest

-- `cJSON_GetObjectItemCaseSensitive`
abbrev pub object_item : Bytes → Json → Option Json
object_item key (object fs) = find_field key fs
object_item key _ = none

-- `cJSON_IsString` and `cJSON_GetStringValue`
abbrev pub string_value : Option Json → Option Bytes
string_value (some (str s)) = some s
string_value _ = none

-- `cJSON_IsTrue`
abbrev pub is_true : Option Json → Bool
is_true (some (bool b)) = b
is_true _ = false

-- `cJSON_IsObject`
abbrev pub is_object : Json → Bool
is_object (object fs) = true
is_object _ = false

-- `json_str`
abbrev pub json_str : Option Json → Bytes → Option Bytes
json_str none key = none
json_str (some j) key = string_value (object_item key j)

-- `json_bool`
abbrev pub json_bool : Option Json → Bytes → Bool
json_bool none key = false
json_bool (some j) key = is_true (object_item key j)

abbrev add_last : Bytes → Json → Fields → Fields
add_last key v no_fields = field key v no_fields
add_last key v (field k w fs) = field k w (add_last key v fs)

-- `cJSON_AddItemToObject`: the item is added to the end.
abbrev pub append_item : Bytes → Json → Json → Json
append_item key v (object fs) = object (add_last key v fs)
append_item key v j = j
