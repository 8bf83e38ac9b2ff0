-- ===== src/SceneGraph/Order/Lists.antt =====
-- Sorted lists of items after items go or change.
use Prim.Native.Nat.{Ordering}
use sbs_server.Prelude.{◌≢◌, List, [], ◌∷◌, All, Bool-cases, inl, inr}
use sbs_server.Prelude.Bytes.{Bytes, str_eq}
use sbs_server.SceneGraph.Types.{Item, AudioBinding}
use sbs_server.SceneGraph.Externals.{item_compare, IsSorted}
use sbs_server.SceneGraph.Copies.{remove_first, update_first}
use sbs_server.SceneGraph.Sources.{drop_items_of}
use sbs_server.SceneGraph.Keeps.Items.{All-remove_first}

abbrev Behind : Item → Item → Type 0
Behind x y = item_compare x y ≢ Ordering.gt

pub remove_first-IsSorted :
    (id : Bytes) (xs : List Item) → IsSorted xs → IsSorted (remove_first id xs)
unfolding remove_first
remove_first-IsSorted id [] h = h
remove_first-IsSorted id (x ∷ xs) h = elim (Bool-cases (str_eq x.id id)) [
  | inl hit ↦ rw hit h.1
  | inr miss ↦ rw miss (All-remove_first (Behind x) id xs h.0, remove_first-IsSorted id xs h.1)
]

All-drop_items_of :
    (P : Item → Type 0) (id : Bytes) (xs : List Item) → All P xs → All P (drop_items_of id xs)
unfolding drop_items_of
All-drop_items_of P id [] h = h
All-drop_items_of P id (x ∷ xs) h = elim (Bool-cases (str_eq x.source_id id)) [
  | inl hit ↦ rw hit (All-drop_items_of P id xs h.1)
  | inr miss ↦ rw miss (h.0, All-drop_items_of P id xs h.1)
]

pub drop_items_of-IsSorted :
    (id : Bytes) (xs : List Item) → IsSorted xs → IsSorted (drop_items_of id xs)
unfolding drop_items_of
drop_items_of-IsSorted id [] h = h
drop_items_of-IsSorted id (x ∷ xs) h = elim (Bool-cases (str_eq x.source_id id)) [
  | inl hit ↦ rw hit (drop_items_of-IsSorted id xs h.1)
  | inr miss ↦ rw miss (All-drop_items_of (Behind x) id xs h.0, drop_items_of-IsSorted id xs h.1)
]

-- The audio of an item plays no part in the order.
All-heard :
    (id : Bytes) (a : AudioBinding) (x : Item) (xs : List Item)
    → All (Behind x) xs
    → All (Behind x) (update_first id (λ y. record y { audio = a }) xs)
unfolding update_first item_compare
All-heard id a x [] h = h
All-heard id a x (y ∷ ys) h = elim (Bool-cases (str_eq y.id id)) [
  | inl hit ↦ rw hit h
  | inr miss ↦ rw miss (h.0, All-heard id a x ys h.1)
]

pub audio-IsSorted :
    (id : Bytes) (a : AudioBinding) (xs : List Item)
    → IsSorted xs
    → IsSorted (update_first id (λ y. record y { audio = a }) xs)
unfolding update_first item_compare
audio-IsSorted id a [] h = h
audio-IsSorted id a (x ∷ xs) h = elim (Bool-cases (str_eq x.id id)) [
  | inl hit ↦ rw hit h
  | inr miss ↦ rw miss (All-heard id a x xs h.0, audio-IsSorted id a xs h.1)
]
