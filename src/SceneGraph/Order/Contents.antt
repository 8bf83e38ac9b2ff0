-- ===== src/SceneGraph/Order/Contents.antt =====
-- The operations on items, one by one.
use sbs_server.Prelude.{
  ◌≡◌, ◌==◌, ◌++◌, length, Option, none, some, List, [], ◌∷◌, if_elim, Option-cases, inl, inr,
}
use sbs_server.Prelude.Bytes.{Bytes}
use sbs_server.Table.{lookup}
use sbs_server.SceneGraph.Types.{
  Graph, Scene, Item, Status, ok, inval, not_found, ItemCreate, ItemUpdate, AudioBinding,
}
use sbs_server.SceneGraph.Externals.{Externals}
use sbs_server.SceneGraph.Copies.{find_item, update_first, audio_binding_copy}
use sbs_server.SceneGraph.Sources.{bump_version}
use sbs_server.SceneGraph.Scenes.{
  put_scene, taken, new_item, add_found, add_to, add_item, updated_item, update_in, update_item,
  audio_in, update_item_audio, assign_order, reordered, reorder_in, reorder_items, remove_item,
}
use sbs_server.SceneGraph.Order.{IsOrdered}
use sbs_server.SceneGraph.Order.Lists.{audio-IsSorted}
use sbs_server.SceneGraph.Order.Scenes.{
  StaysOrdered, put_scene-IsOrdered, found-IsSorted, remove_in-IsOrdered,
}

module _ (X : Externals) (g : Graph) (v : IsOrdered g) where
  pub sorted-IsOrdered :
      (k : Bytes) (sc : Scene) (items : List Item)
      → IsOrdered (bump_version (put_scene g k (record sc { items = X.sort items })))
  sorted-IsOrdered k sc items =
      put_scene-IsOrdered g v k (record sc { items = X.sort items }) (X.sort_orders items)

  pub add_to-IsOrdered :
      (k source_id : Bytes) (p : ItemCreate) → IsOrdered (add_to X g k source_id p).1
  unfolding add_to add_found
  add_to-IsOrdered k source_id p = elim (Option-cases (lookup k g.scenes)) [
    | inl e ↦ rw (e, add_to) v
    | inr (sc, e) ↦ elim (Option-cases (lookup source_id g.sources)) [
      | inl f ↦ rw (e, f, add_to) v
      | inr (source, f) ↦
          rw (e, f, add_to)
            (if_elim StaysOrdered (taken p.id sc.items) (λ _. v)
              (λ _. sorted-IsOrdered k sc (sc.items ++ new_item X p source source_id ∷ [])))
    ]
  ]

  pub update_in-IsOrdered : (k id : Bytes) (p : ItemUpdate) → IsOrdered (update_in X g k id p).1
  unfolding update_in
  update_in-IsOrdered k id p = elim (Option-cases (lookup k g.scenes)) [
    | inl e ↦ rw (e, update_in) v
    | inr (sc, e) ↦ elim (Option-cases (find_item id sc.items)) [
      | inl f ↦ rw (e, f, update_in) v
      | inr (x, f) ↦
          rw (e, f, update_in) (sorted-IsOrdered k sc (update_first id (updated_item X p) sc.items))
    ]
  ]

  pub audio_in-IsOrdered : (k id : Bytes) (a : AudioBinding) → IsOrdered (audio_in X g k id a).1
  unfolding audio_in
  audio_in-IsOrdered k id a = elim (Option-cases (lookup k g.scenes)) [
    | inl e ↦ rw (e, audio_in) v
    | inr (sc, e) ↦ elim (Option-cases (find_item id sc.items)) [
      | inl f ↦ rw (e, f, audio_in) v
      | inr (x, f) ↦
          let b = audio_binding_copy X (some a) in
          let items = update_first id (λ y. record y { audio = b }) sc.items in
          rw (e, f, audio_in)
            (put_scene-IsOrdered g v k (record sc { items = items })
              (audio-IsSorted id b sc.items (found-IsSorted g v k sc e)))
    ]
  ]

  pub reordered-IsOrdered :
      (k : Bytes) (sc : Scene) (r : Status × List Item)
      → (reordered X g k sc r).0 ≡ ok
      → IsOrdered (reordered X g k sc r).1
  unfolding reordered
  reordered-IsOrdered k sc (ok, items) done = sorted-IsOrdered k sc items
  reordered-IsOrdered k sc (inval, items) done = cc
  reordered-IsOrdered k sc (not_found, items) done = cc

  pub reorder_in-IsOrdered :
      (k : Bytes) (ids : List (Option Bytes))
      → (reorder_in X g k ids).0 ≡ ok
      → IsOrdered (reorder_in X g k ids).1
  unfolding reorder_in
  reorder_in-IsOrdered k ids done = elim (Option-cases (lookup k g.scenes)) [
    | inl e ↦ rw (e, reorder_in) v
    | inr (sc, e) ↦
        rw (e, reorder_in)
          (if_elim (λ (r : Status × Graph). r.0 ≡ ok → IsOrdered r.1)
            (length ids == length sc.items)
            (λ _. reordered-IsOrdered k sc (assign_order X 0 ids sc.items)) (λ _ _. v)
            (rw (e, reorder_in) at done))
  ]

pub add_item-IsOrdered :
    (X : Externals) (g : Graph) (k : Option Bytes) (p : ItemCreate)
    → IsOrdered g
    → IsOrdered (add_item X g k p).1
unfolding add_item
add_item-IsOrdered X g none p v = v
add_item-IsOrdered X g (some k) p v = elim (Option-cases p.source_id) [
  | inl e ↦ rw (e, add_item) v
  | inr (s, e) ↦ rw (e, add_item) (add_to-IsOrdered X g v k s p)
]

pub update_item-IsOrdered :
    (X : Externals) (g : Graph) (k id : Option Bytes) (p : ItemUpdate)
    → IsOrdered g
    → IsOrdered (update_item X g k id p).1
unfolding update_item
update_item-IsOrdered X g none id p v = v
update_item-IsOrdered X g (some k) none p v = v
update_item-IsOrdered X g (some k) (some id) p v = update_in-IsOrdered X g v k id p

pub update_item_audio-IsOrdered :
    (X : Externals) (g : Graph) (k id : Option Bytes) (a : Option AudioBinding)
    → IsOrdered g
    → IsOrdered (update_item_audio X g k id a).1
unfolding update_item_audio
update_item_audio-IsOrdered X g none id a v = v
update_item_audio-IsOrdered X g (some k) none a v = v
update_item_audio-IsOrdered X g (some k) (some id) none v = v
update_item_audio-IsOrdered X g (some k) (some id) (some a) v = audio_in-IsOrdered X g v k id a

pub remove_item-IsOrdered :
    (g : Graph) (k id : Option Bytes) → IsOrdered g → IsOrdered (remove_item g k id).1
unfolding remove_item
remove_item-IsOrdered g none id v = v
remove_item-IsOrdered g (some k) none v = v
remove_item-IsOrdered g (some k) (some id) v = remove_in-IsOrdered g v k id

pub reorder_items-IsOrdered :
    (X : Externals) (g : Graph) (k : Option Bytes) (ids : Option (List (Option Bytes)))
    → IsOrdered g
    → (reorder_items X g k ids).0 ≡ ok
    → IsOrdered (reorder_items X g k ids).1
unfolding reorder_items
reorder_items-IsOrdered X g none ids v done = v
reorder_items-IsOrdered X g (some k) none v done = v
reorder_items-IsOrdered X g (some k) (some ids) v done = reorder_in-IsOrdered X g v k ids done
