-- ===== src/SceneGraph/Atomic/Contents.antt =====
-- Items and filters: failed and successful operations.
use sbs_server.Prelude.{
  Option, none, some, arith, List, Option-cases, inl, inr, if_elim, ◌==◌, length,
}
use sbs_server.Prelude.Bytes.{Bytes}
use sbs_server.Table.{lookup}
use sbs_server.SceneGraph.Types.{
  Graph, Status, ok, inval, not_found, ItemCreate, ItemUpdate, AudioBinding, Scene, Item,
  FilterCreate, FilterUpdate,
}
use sbs_server.SceneGraph.Externals.{Externals}
use sbs_server.SceneGraph.Scenes.{
  add_found, add_to, add_item, update_in, update_item, audio_in, update_item_audio, assign_order,
  reordered, reorder_in, reorder_items,
}
use sbs_server.SceneGraph.Filters.{
  update_found, remove_found, add_filter, add_scene_filter, update_filter, update_scene_filter,
  remove_filter, remove_scene_filter,
}
use sbs_server.SceneGraph.Atomic.{IsCounted, IsAtomic}
use sbs_server.SceneGraph.Atomic.Plain.{on_source-IsAtomic, on_scene-IsAtomic}

module _ (X : Externals) (g : Graph) where
  pub add_item-IsAtomic : (k : Option Bytes) (p : ItemCreate) → IsAtomic g (add_item X g k p)
  unfolding add_item add_to add_found
  add_item-IsAtomic none p = ground arith
  add_item-IsAtomic (some k) p = ground arith

  pub update_item-IsAtomic :
      (k id : Option Bytes) (p : ItemUpdate) → IsAtomic g (update_item X g k id p)
  unfolding update_item update_in
  update_item-IsAtomic none id p = ground arith
  update_item-IsAtomic (some k) none p = ground arith
  update_item-IsAtomic (some k) (some id) p = ground arith

  pub update_item_audio-IsAtomic :
      (k id : Option Bytes) (a : Option AudioBinding) → IsAtomic g (update_item_audio X g k id a)
  unfolding update_item_audio audio_in
  update_item_audio-IsAtomic none id a = ground arith
  update_item_audio-IsAtomic (some k) none a = ground arith
  update_item_audio-IsAtomic (some k) (some id) none = ground arith
  update_item_audio-IsAtomic (some k) (some id) (some a) = ground arith

  pub reordered-IsCounted :
      (k : Bytes) (sc : Scene) (r : Status × List Item) → IsCounted g (reordered X g k sc r)
  unfolding reordered
  reordered-IsCounted k sc (ok, items) = ground arith
  reordered-IsCounted k sc (inval, items) = ground arith
  reordered-IsCounted k sc (not_found, items) = ground arith

  pub reorder_items-IsCounted :
      (k : Option Bytes) (ids : Option (List (Option Bytes)))
      → IsCounted g (reorder_items X g k ids)
  unfolding reorder_items reorder_in
  reorder_items-IsCounted none ids = ground arith
  reorder_items-IsCounted (some k) none = ground arith
  reorder_items-IsCounted (some k) (some ids) = elim (Option-cases (lookup k g.scenes)) [
    | inl e ↦ rw (e, reorder_in) (ground arith)
    | inr (sc, e) ↦
        rw (e, reorder_in)
          (if_elim (IsCounted g) (length ids == length sc.items)
            (λ _. reordered-IsCounted k sc (assign_order X 0 ids sc.items)) (λ _. ground arith))
  ]

  pub add_filter-IsAtomic :
      (id : Option Bytes) (p : FilterCreate) → IsAtomic g (add_filter X g id p)
  unfolding add_filter
  add_filter-IsAtomic none p = ground arith
  add_filter-IsAtomic (some id) p = ground (arith, on_source-IsAtomic g)

  pub add_scene_filter-IsAtomic :
      (id : Option Bytes) (p : FilterCreate) → IsAtomic g (add_scene_filter X g id p)
  unfolding add_scene_filter
  add_scene_filter-IsAtomic none p = ground arith
  add_scene_filter-IsAtomic (some id) p = ground (arith, on_scene-IsAtomic g)

  pub update_filter-IsAtomic :
      (id f : Option Bytes) (p : FilterUpdate) → IsAtomic g (update_filter X g id f p)
  unfolding update_filter
  update_filter-IsAtomic none f p = ground arith
  update_filter-IsAtomic (some id) none p = ground arith
  update_filter-IsAtomic (some id) (some f) p =
      on_source-IsAtomic g id not_found (update_found X f p) (λ e. cc)

  pub update_scene_filter-IsAtomic :
      (id f : Option Bytes) (p : FilterUpdate) → IsAtomic g (update_scene_filter X g id f p)
  unfolding update_scene_filter
  update_scene_filter-IsAtomic none f p = ground arith
  update_scene_filter-IsAtomic (some id) none p = ground arith
  update_scene_filter-IsAtomic (some id) (some f) p =
      on_scene-IsAtomic g id not_found (update_found X f p) (λ e. cc)

module _ (g : Graph) where
  pub remove_filter-IsAtomic : (id f : Option Bytes) → IsAtomic g (remove_filter g id f)
  unfolding remove_filter
  remove_filter-IsAtomic none f = ground arith
  remove_filter-IsAtomic (some id) none = ground arith
  remove_filter-IsAtomic (some id) (some f) =
      on_source-IsAtomic g id not_found (remove_found f) (λ e. cc)

  pub remove_scene_filter-IsAtomic : (id f : Option Bytes) → IsAtomic g (remove_scene_filter g id f)
  unfolding remove_scene_filter
  remove_scene_filter-IsAtomic none f = ground arith
  remove_scene_filter-IsAtomic (some id) none = ground arith
  remove_scene_filter-IsAtomic (some id) (some f) =
      on_scene-IsAtomic g id not_found (remove_found f) (λ e. cc)
