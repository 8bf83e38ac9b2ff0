-- ===== src/SceneGraph/Keeps/SceneItems.antt =====
-- The invariant and the operations on items.
use sbs_server.Prelude.{
  ◌≡◌, refl, Option, none, some, List, [], ◌∷◌, ◌++◌, if_elim, Option-cases, inl, inr, ◌==◌, length,
  All, All-append,
}
use sbs_server.Prelude.Bytes.{Bytes}
use sbs_server.Table.{lookup}
use sbs_server.SceneGraph.Types.{
  Graph, Scene, Source, Item, ItemCreate, ItemUpdate, AudioBinding, Status, ok, inval, not_found,
}
use sbs_server.SceneGraph.Externals.{Externals}
use sbs_server.SceneGraph.Copies.{find_item, remove_first, update_first, audio_binding_copy}
use sbs_server.SceneGraph.Sources.{bump_version}
use sbs_server.SceneGraph.Scenes.{
  new_item, taken, add_found, add_to, add_item, updated_item, update_in, update_item, audio_in,
  update_item_audio, assign_order, reordered, reorder_in, reorder_items, remove_in, remove_item,
  put_scene,
}
use sbs_server.SceneGraph.Invariant.{IsValid, ItemOk}
use sbs_server.SceneGraph.Keeps.Items.{
  All-sort, All-remove_first, All-update_first, All-assign_order,
}
use sbs_server.SceneGraph.Keeps.Parts.{bump_version-IsValid, put_scene-IsValid, found-SceneOk}
use sbs_server.SceneGraph.Keeps.Sources.{ResultOk}

-- The items of a scene are replaced by items that show sources.
put_items-IsValid :
    (g : Graph) (k : Bytes) (sc : Scene) (items : List Item)
    → IsValid g
    → lookup k g.scenes ≡ some sc
    → All (ItemOk g.sources) items
    → IsValid (put_scene g k (record sc { items = items }))
put_items-IsValid g k sc items v e h =
    put_scene-IsValid g v k sc (record sc { items = items }) e ((found-SceneOk g v k sc e).0, h)

module _ (g : Graph) (v : IsValid g) (k : Bytes) (sc : Scene)
    (e : lookup k g.scenes ≡ some sc) where
  bumped_items-IsValid :
      (items : List Item)
      → All (ItemOk g.sources) items
      → IsValid (bump_version (put_scene g k (record sc { items = items })))
  bumped_items-IsValid items h =
      bump_version-IsValid (put_scene g k (record sc { items = items }))
        (put_items-IsValid g k sc items v e h)

  items-ItemOk : All (ItemOk g.sources) sc.items
  items-ItemOk = (found-SceneOk g v k sc e).1

module _ (X : Externals) (g : Graph) (v : IsValid g) where
  add_found-IsValid :
      (k : Bytes) (sc : Scene) (source : Source) (source_id : Bytes) (p : ItemCreate)
      → lookup k g.scenes ≡ some sc
      → lookup source_id g.sources ≡ some source
      → IsValid (add_found X g k sc source source_id p).1
  unfolding add_found new_item
  add_found-IsValid k sc source source_id p e there =
      if_elim ResultOk (taken p.id sc.items) (λ _. v)
        (λ _.
          bumped_items-IsValid g v k sc e (X.sort (sc.items ++ new_item X p source source_id ∷ []))
            (All-sort (ItemOk g.sources) X (sc.items ++ new_item X p source source_id ∷ []) (
              All-append (ItemOk g.sources) sc.items (new_item X p source source_id ∷ [])
                (items-ItemOk g v k sc e) (rw there refl, tt))))

  pub add_to-IsValid : (k source_id : Bytes) (p : ItemCreate) → IsValid (add_to X g k source_id p).1
  unfolding add_to
  add_to-IsValid k source_id p = elim (Option-cases (lookup k g.scenes)) [
    | inl e ↦ rw (e, add_to) v
    | inr (sc, e) ↦ elim (Option-cases (lookup source_id g.sources)) [
      | inl f ↦ rw (e, f, add_to) v
      | inr (source, f) ↦ rw (e, f, add_to) (add_found-IsValid k sc source source_id p e f)
    ]
  ]

  pub update_in-IsValid : (k id : Bytes) (p : ItemUpdate) → IsValid (update_in X g k id p).1
  unfolding update_in updated_item
  update_in-IsValid k id p = elim (Option-cases (lookup k g.scenes)) [
    | inl e ↦ rw (e, update_in) v
    | inr (sc, e) ↦ elim (Option-cases (find_item id sc.items)) [
      | inl f ↦ rw (e, f, update_in) v
      | inr (x, f) ↦
          rw (e, f, update_in)
            (bumped_items-IsValid g v k sc e (X.sort (update_first id (updated_item X p) sc.items))
              (All-sort (ItemOk g.sources) X (update_first id (updated_item X p) sc.items) (
                All-update_first (ItemOk g.sources) id (updated_item X p) sc.items (λ x h. h)
                  (items-ItemOk g v k sc e))))
    ]
  ]

  pub audio_in-IsValid : (k id : Bytes) (a : AudioBinding) → IsValid (audio_in X g k id a).1
  unfolding audio_in
  audio_in-IsValid k id a = elim (Option-cases (lookup k g.scenes)) [
    | inl e ↦ rw (e, audio_in) v
    | inr (sc, e) ↦ elim (Option-cases (find_item id sc.items)) [
      | inl f ↦ rw (e, f, audio_in) v
      | inr (x, f) ↦
          let f' : Item → Item = λ x. record x { audio = audio_binding_copy X (some a) } in
          rw (e, f, audio_in)
            (bumped_items-IsValid g v k sc e (update_first id f' sc.items) (
              All-update_first (ItemOk g.sources) id f' sc.items (λ x h. h)
                (items-ItemOk g v k sc e)))
    ]
  ]

  reordered-IsValid :
      (k : Bytes) (sc : Scene) (r : Status × List Item)
      → lookup k g.scenes ≡ some sc
      → All (ItemOk g.sources) r.1
      → IsValid (reordered X g k sc r).1
  unfolding reordered
  reordered-IsValid k sc (ok, items) e h =
      bumped_items-IsValid g v k sc e (X.sort items) (All-sort (ItemOk g.sources) X items h)
  reordered-IsValid k sc (inval, items) e h = put_items-IsValid g k sc items v e h
  reordered-IsValid k sc (not_found, items) e h = put_items-IsValid g k sc items v e h

  pub reorder_in-IsValid :
      (k : Bytes) (ids : List (Option Bytes)) → IsValid (reorder_in X g k ids).1
  unfolding reorder_in
  reorder_in-IsValid k ids = elim (Option-cases (lookup k g.scenes)) [
    | inl e ↦ rw (e, reorder_in) v
    | inr (sc, e) ↦
        rw (e, reorder_in)
          (if_elim ResultOk (length ids == length sc.items)
            (λ _. reordered-IsValid k sc (assign_order X 0 ids sc.items) e (
              All-assign_order (ItemOk g.sources) X 0 ids sc.items (λ x z h. h)
                (items-ItemOk g v k sc e)))
            (λ _. v))
  ]

pub add_item-IsValid :
    (X : Externals) (g : Graph) (k : Option Bytes) (p : ItemCreate)
    → IsValid g
    → IsValid (add_item X g k p).1
unfolding add_item
add_item-IsValid X g none p v = v
add_item-IsValid X g (some k) p v = elim (Option-cases p.source_id) [
  | inl e ↦ rw (e, add_item) v
  | inr (s, e) ↦ rw (e, add_item) (add_to-IsValid X g v k s p)
]

pub update_item-IsValid :
    (X : Externals) (g : Graph) (k id : Option Bytes) (p : ItemUpdate)
    → IsValid g
    → IsValid (update_item X g k id p).1
unfolding update_item
update_item-IsValid X g none id p v = v
update_item-IsValid X g (some k) none p v = v
update_item-IsValid X g (some k) (some id) p v = update_in-IsValid X g v k id p

pub update_item_audio-IsValid :
    (X : Externals) (g : Graph) (k id : Option Bytes) (a : Option AudioBinding)
    → IsValid g
    → IsValid (update_item_audio X g k id a).1
unfolding update_item_audio
update_item_audio-IsValid X g none id a v = v
update_item_audio-IsValid X g (some k) none a v = v
update_item_audio-IsValid X g (some k) (some id) none v = v
update_item_audio-IsValid X g (some k) (some id) (some a) v = audio_in-IsValid X g v k id a

pub reorder_items-IsValid :
    (X : Externals) (g : Graph) (k : Option Bytes) (ids : Option (List (Option Bytes)))
    → IsValid g
    → IsValid (reorder_items X g k ids).1
unfolding reorder_items
reorder_items-IsValid X g none ids v = v
reorder_items-IsValid X g (some k) none v = v
reorder_items-IsValid X g (some k) (some ids) v = reorder_in-IsValid X g v k ids

remove_in-IsValid : (g : Graph) (k id : Bytes) → IsValid g → IsValid (remove_in g k id).1
unfolding remove_in
remove_in-IsValid g k id v = elim (Option-cases (lookup k g.scenes)) [
  | inl e ↦ rw (e, remove_in) v
  | inr (sc, e) ↦ elim (Option-cases (find_item id sc.items)) [
    | inl f ↦ rw (e, f, remove_in) v
    | inr (x, f) ↦
        rw (e, f, remove_in)
          (bumped_items-IsValid g v k sc e (remove_first id sc.items)
            (All-remove_first (ItemOk g.sources) id sc.items (items-ItemOk g v k sc e)))
  ]
]

pub remove_item-IsValid :
    (g : Graph) (k id : Option Bytes) → IsValid g → IsValid (remove_item g k id).1
unfolding remove_item
remove_item-IsValid g none id v = v
remove_item-IsValid g (some k) none v = v
remove_item-IsValid g (some k) (some id) v = remove_in-IsValid g k id v
