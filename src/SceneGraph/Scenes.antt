-- ===== src/SceneGraph/Scenes.antt =====
-- The operations on scenes and on their items.
use sbs_server.Prelude.{
  ℕ, ◌+◌, ◌*◌, ◌%◌, Bool, false, not, Option, none, some, List, [], ◌∷◌, ◌++◌, if◌then◌else◌,
  is_some, ◌==◌, length,
}
use sbs_server.Prelude.Bytes.{Bytes, codes, str_eq0}
use sbs_server.Prelude.Words.{u64_mod}
use sbs_server.Prelude.Int.{to_int32}
use sbs_server.Table.{lookup, contains, insert, remove}
use sbs_server.SceneGraph.Types.{
  Status, ok, inval, not_found, Graph, Source, Scene, SceneCreate, Item, ItemCreate, ItemUpdate,
  AudioBinding,
}
use sbs_server.SceneGraph.Externals.{Externals}
use sbs_server.SceneGraph.Names.{valid_id}
use sbs_server.SceneGraph.Copies.{
  or_default, find_item, remove_first, update_first, audio_binding_copy, transform_copy,
}
use sbs_server.SceneGraph.Sources.{bump_version}

unfoldable pub new_scene : Bytes → SceneCreate → Scene
new_scene id p = record { id = id; name = or_default p.name id; items = []; filters = [] }

-- `graph->active_scene_id`, set if it was NULL.
abbrev pub first_active : Option Bytes → Bytes → Option Bytes
first_active none id = some id
first_active (some a) id = some a

unfoldable pub create_scene_at : Graph → SceneCreate → Option Bytes → Status × Graph
create_scene_at g p none = (inval, g)
create_scene_at g p (some id) =
    if not (valid_id id) then (inval, g) else if contains id g.scenes then (inval, g) else (
      ok,
      bump_version (record g {
        scenes = insert id (new_scene id p) g.scenes;
        active_scene_id = first_active g.active_scene_id id;
      }),
    )

-- `sbs_scene_graph_create_scene`
unfoldable pub create_scene : Graph → SceneCreate → Status × Graph
unfolding create_scene_at
create_scene g p = create_scene_at g p p.id

-- `sbs_scene_graph_get_scene`
abbrev pub get_scene : Graph → Option Bytes → Option Scene
get_scene g none = none
get_scene g (some id) = lookup id g.scenes

-- A scene changed in place.
abbrev pub put_scene : Graph → Bytes → Scene → Graph
put_scene g id sc = record g { scenes = insert id sc g.scenes }

unfoldable pub rename_found : Graph → Bytes → Option Bytes → Status × Graph
rename_found g id name = elim (lookup id g.scenes) [
  | none ↦ (not_found, g)
  | some sc ↦ elim name [
    | none ↦ (inval, g)
    | some n ↦ (ok, bump_version (put_scene g id (record sc { name = n })))
  ]
]

-- `sbs_scene_graph_update_scene_name`
unfoldable pub update_scene_name : Graph → Option Bytes → Option Bytes → Status × Graph
unfolding rename_found
update_scene_name g none name = (not_found, g)
update_scene_name g (some id) name = rename_found g id name

-- `sbs_scene_graph_remove_scene`
unfoldable pub remove_scene : Graph → Option Bytes → Status × Graph
remove_scene g none = (inval, g)
remove_scene g (some id) =
    if not (contains id g.scenes)
    then (not_found, g)
    else if str_eq0 g.active_scene_id (some id)
    then (inval, g)
    else (
      ok,
      bump_version (record g {
        scenes = remove id g.scenes;
        preview_scene_id =
            if str_eq0 g.preview_scene_id (some id) then none else g.preview_scene_id;
      }),
    )

-- `sbs_scene_graph_get_item`
abbrev pub get_item : Graph → Bytes → Bytes → Option Item
get_item g scene_id item_id = elim (lookup scene_id g.scenes) [
  | none ↦ none
  | some sc ↦ find_item item_id sc.items
]

-- Whether an id is given and taken by an item.
abbrev pub taken : Option Bytes → List Item → Bool
taken none items = false
taken (some id) items = is_some (find_item id items)

module _ (X : Externals) where
  -- The item that `add_item` fills in; without an audio binding of its own it gets its source's.
  unfoldable pub new_item : ItemCreate → Source → Bytes → Item
  new_item p source source_id = record {
    id = or_default p.id (codes "item-auto");
    source_id = source_id;
    visible = p.visible;
    locked = p.locked;
    z_order = p.z_order;
    transform = transform_copy X p.transform;
    audio = elim p.audio [
      | none ↦ audio_binding_copy X (some source.audio)
      | some a ↦ audio_binding_copy X (some a)
    ];
    filters = [];
  }

  unfoldable pub add_found : Graph → Bytes → Scene → Source → Bytes → ItemCreate → Status × Graph
  add_found g scene_id sc source source_id p = if taken p.id sc.items then (inval, g) else (
    ok,
    bump_version (
        put_scene g scene_id
          (record sc { items = X.sort (sc.items ++ new_item p source source_id ∷ []) })),
  )

  unfoldable pub add_to : Graph → Bytes → Bytes → ItemCreate → Status × Graph
  unfolding add_found
  add_to g scene_id source_id p = elim (lookup scene_id g.scenes) [
    | none ↦ (not_found, g)
    | some sc ↦ elim (lookup source_id g.sources) [
      | none ↦ (not_found, g)
      | some source ↦ add_found g scene_id sc source source_id p
    ]
  ]

  -- `sbs_scene_graph_add_item`
  unfoldable pub add_item : Graph → Option Bytes → ItemCreate → Status × Graph
  unfolding add_to
  add_item g none p = (inval, g)
  add_item g (some scene_id) p = elim p.source_id [
    | none ↦ (inval, g)
    | some source_id ↦ add_to g scene_id source_id p
  ]

  -- The assignments of `update_item`.
  unfoldable pub updated_item : ItemUpdate → Item → Item
  updated_item p x = record x {
    visible = if p.set_visible then p.visible else x.visible;
    locked = if p.set_locked then p.locked else x.locked;
    z_order = if p.set_z_order then p.z_order else x.z_order;
    transform = if p.set_transform then transform_copy X p.transform else x.transform;
  }

  unfoldable pub update_in : Graph → Bytes → Bytes → ItemUpdate → Status × Graph
  update_in g scene_id item_id p = elim (lookup scene_id g.scenes) [
    | none ↦ (not_found, g)
    | some sc ↦ elim (find_item item_id sc.items) [
      | none ↦ (not_found, g)
      | some _ ↦ (
        ok,
        bump_version (
            put_scene g scene_id
              (record sc { items = X.sort (update_first item_id (updated_item p) sc.items) })),
      )
    ]
  ]

  -- `sbs_scene_graph_update_item`
  unfoldable pub update_item : Graph → Option Bytes → Option Bytes → ItemUpdate → Status × Graph
  unfolding update_in updated_item
  update_item g none item_id p = (inval, g)
  update_item g (some scene_id) none p = (inval, g)
  update_item g (some scene_id) (some item_id) p = update_in g scene_id item_id p

  unfoldable pub audio_in : Graph → Bytes → Bytes → AudioBinding → Status × Graph
  audio_in g scene_id item_id audio = elim (lookup scene_id g.scenes) [
    | none ↦ (not_found, g)
    | some sc ↦ elim (find_item item_id sc.items) [
      | none ↦ (not_found, g)
      | some _ ↦ (
        ok,
        bump_version (
            put_scene g scene_id (record sc {
              items =
                  update_first item_id (λ x. record x { audio = audio_binding_copy X (some audio) })
                    sc.items;
            })),
      )
    ]
  ]

  -- `sbs_scene_graph_update_item_audio`
  unfoldable pub update_item_audio :
      Graph → Option Bytes → Option Bytes → Option AudioBinding → Status × Graph
  unfolding audio_in
  update_item_audio g (some scene_id) (some item_id) (some audio) =
      audio_in g scene_id item_id audio
  update_item_audio g _ _ _ = (inval, g)

  -- The loop of `reorder_items` from `i` on. It stops at an id that no item has, with the z-orders
  -- that it gave so far.
  unfoldable pub assign_order : ℕ → List (Option Bytes) → List Item → Status × List Item
  assign_order i [] items = (ok, items)
  assign_order i (none ∷ ids) items = (not_found, items)
  assign_order i (some id ∷ ids) items = elim (find_item id items) [
    | none ↦ (not_found, items)
    | some _ ↦
        assign_order (i + 1) ids
          (update_first id (λ x. record x { z_order = to_int32 ((i * 10) % u64_mod) }) items)
  ]

  -- What follows the loop; after a failure the new z-orders stay.
  unfoldable pub reordered : Graph → Bytes → Scene → Status × List Item → Status × Graph
  reordered g scene_id sc (ok, items) =
      (ok, bump_version (put_scene g scene_id (record sc { items = X.sort items })))
  reordered g scene_id sc (inval, items) =
      (inval, put_scene g scene_id (record sc { items = items }))
  reordered g scene_id sc (not_found, items) =
      (not_found, put_scene g scene_id (record sc { items = items }))

  unfoldable pub reorder_in : Graph → Bytes → List (Option Bytes) → Status × Graph
  unfolding reordered
  reorder_in g scene_id ids = elim (lookup scene_id g.scenes) [
    | none ↦ (not_found, g)
    | some sc ↦
        if length ids == length sc.items
        then reordered g scene_id sc (assign_order 0 ids sc.items)
        else (inval, g)
  ]

  -- `sbs_scene_graph_reorder_items`; `item_count` is the length of the array.
  unfoldable pub reorder_items :
      Graph → Option Bytes → Option (List (Option Bytes)) → Status × Graph
  unfolding reorder_in
  reorder_items g (some scene_id) (some ids) = reorder_in g scene_id ids
  reorder_items g _ _ = (inval, g)

unfoldable pub remove_in : Graph → Bytes → Bytes → Status × Graph
remove_in g scene_id item_id = elim (lookup scene_id g.scenes) [
  | none ↦ (not_found, g)
  | some sc ↦ elim (find_item item_id sc.items) [
    | none ↦ (not_found, g)
    | some _ ↦ (
      ok,
      bump_version (put_scene g scene_id (record sc { items = remove_first item_id sc.items })),
    )
  ]
]

-- `sbs_scene_graph_remove_item`
unfoldable pub remove_item : Graph → Option Bytes → Option Bytes → Status × Graph
unfolding remove_in
remove_item g (some scene_id) (some item_id) = remove_in g scene_id item_id
remove_item g _ _ = (inval, g)
