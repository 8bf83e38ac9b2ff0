-- ===== src/Table.antt =====
-- GLib's hash tables with string keys, as the server uses them, by association lists. The order of
-- the entries is the order of an iteration, which GLib leaves open.
pub mod Laws
pub mod Totals
use sbs_server.Prelude.{Bool, Option, none, some, List, [], ◌∷◌, if◌then◌else◌, is_some}
use sbs_server.Prelude.Bytes.{Bytes, str_eq}

abbrev pub Table {ℓ} : Type ℓ → Type ℓ
Table V = List (Bytes × V)

module _ {ℓ} {V : Type ℓ} where
  -- `g_hash_table_lookup`
  unfoldable pub lookup : Bytes → Table V → Option V
  lookup k [] = none
  lookup k ((j, v) ∷ m) = if str_eq j k then some v else lookup k m

  -- `g_hash_table_contains`
  abbrev pub contains : Bytes → Table V → Bool
  contains k m = is_some (lookup k m)

  -- `g_hash_table_insert` and `g_hash_table_replace`: the value of an equal key is replaced.
  unfoldable pub insert : Bytes → V → Table V → Table V
  insert k v [] = (k, v) ∷ []
  insert k v ((j, w) ∷ m) = if str_eq j k then (k, v) ∷ m else (j, w) ∷ insert k v m

  -- `g_hash_table_remove` and `g_hash_table_steal`
  unfoldable pub remove : Bytes → Table V → Table V
  remove k [] = []
  remove k ((j, w) ∷ m) = let rest = remove k m in if str_eq j k then rest else (j, w) ∷ rest

  -- An iteration that changes the values.
  unfoldable pub map_values : (V → V) → Table V → Table V
  map_values f [] = []
  map_values f ((j, w) ∷ m) = (j, f w) ∷ map_values f m
