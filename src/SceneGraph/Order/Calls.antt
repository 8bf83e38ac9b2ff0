-- ===== src/SceneGraph/Order/Calls.antt =====
-- The order of the items after a call of the interface.
use sbs_server.Prelude.{◌≡◌, refl, Option, none, some, Option-cases, inl, inr}
use sbs_server.Prelude.Bytes.{Bytes}
use sbs_server.SceneGraph.Types.{Graph, ok, inval, not_found, FilterCreate, FilterUpdate}
use sbs_server.SceneGraph.Externals.{Externals}
use sbs_server.SceneGraph.Sources.{create_source, update_source}
use sbs_server.SceneGraph.Scenes.{create_scene}
use sbs_server.SceneGraph.Filters.{
  on_source, added_filter, update_found, remove_found, add_filter, add_scene_filter, update_filter,
  update_scene_filter, remove_filter, remove_scene_filter,
}
use sbs_server.SceneGraph.Transitions.{
  create_output, remove_output, create_transition, update_transition, set_default_transition,
  set_active_scene, set_preview_scene, transition_to_preview, update_transition_runtime,
}
use sbs_server.SceneGraph.Order.{IsOrdered}
use sbs_server.SceneGraph.Order.Unchanged.{
  create_source_at-scenes, update_source-scenes, create_output_at-scenes, remove_output-scenes,
  create_transition_at-scenes, update_transition-scenes, set_default_transition-scenes,
  set_active_scene-scenes, set_preview_scene-scenes, transition_to_preview-scenes, on_source-scenes,
}
use sbs_server.SceneGraph.Calls.{
  Call, source_create, source_update, source_remove, scene_create, scene_rename, scene_remove,
  item_add, item_update, item_audio, item_remove, items_reorder, filter_add, filter_update,
  filter_remove, scene_filter_add, scene_filter_update, scene_filter_remove, output_create,
  output_remove, transition_create, transition_update, default_transition, scene_activate,
  scene_preview, preview_take, runtime_update, perform,
}
use sbs_server.SceneGraph.Order.Scenes.{
  same_scenes, remove_source-IsOrdered, create_scene_at-IsOrdered, update_scene_name-IsOrdered,
  remove_scene-IsOrdered, on_scene-IsOrdered,
}
use sbs_server.SceneGraph.Order.Contents.{
  add_item-IsOrdered, update_item-IsOrdered, update_item_audio-IsOrdered, remove_item-IsOrdered,
  reorder_items-IsOrdered,
}

module _ (X : Externals) (g : Graph) (v : IsOrdered g) where
  add_filter-IsOrdered : (id : Option Bytes) (p : FilterCreate) → IsOrdered (add_filter X g id p).1
  unfolding add_filter
  add_filter-IsOrdered none p = v
  add_filter-IsOrdered (some id) p = elim (Option-cases p.type) [
    | inl e ↦ rw (e, add_filter) v
    | inr (t, e) ↦
        rw (e, add_filter)
          (same_scenes g (on_source g id inval (added_filter X p t)).1
            (on_source-scenes g id inval (added_filter X p t)) v)
  ]

  update_filter-IsOrdered :
      (id f : Option Bytes) (p : FilterUpdate) → IsOrdered (update_filter X g id f p).1
  unfolding update_filter
  update_filter-IsOrdered none f p = v
  update_filter-IsOrdered (some id) none p = v
  update_filter-IsOrdered (some id) (some f) p =
      same_scenes g (on_source g id not_found (update_found X f p)).1
        (on_source-scenes g id not_found (update_found X f p)) v

  remove_filter-IsOrdered : (id f : Option Bytes) → IsOrdered (remove_filter g id f).1
  unfolding remove_filter
  remove_filter-IsOrdered none f = v
  remove_filter-IsOrdered (some id) none = v
  remove_filter-IsOrdered (some id) (some f) =
      same_scenes g (on_source g id not_found (remove_found f)).1
        (on_source-scenes g id not_found (remove_found f)) v

  add_scene_filter-IsOrdered :
      (id : Option Bytes) (p : FilterCreate) → IsOrdered (add_scene_filter X g id p).1
  unfolding add_scene_filter
  add_scene_filter-IsOrdered none p = v
  add_scene_filter-IsOrdered (some id) p = elim (Option-cases p.type) [
    | inl e ↦ rw (e, add_scene_filter) v
    | inr (t, e) ↦ rw (e, add_scene_filter) (on_scene-IsOrdered g v id inval (added_filter X p t))
  ]

  update_scene_filter-IsOrdered :
      (id f : Option Bytes) (p : FilterUpdate) → IsOrdered (update_scene_filter X g id f p).1
  unfolding update_scene_filter
  update_scene_filter-IsOrdered none f p = v
  update_scene_filter-IsOrdered (some id) none p = v
  update_scene_filter-IsOrdered (some id) (some f) p =
      on_scene-IsOrdered g v id not_found (update_found X f p)

  remove_scene_filter-IsOrdered : (id f : Option Bytes) → IsOrdered (remove_scene_filter g id f).1
  unfolding remove_scene_filter
  remove_scene_filter-IsOrdered none f = v
  remove_scene_filter-IsOrdered (some id) none = v
  remove_scene_filter-IsOrdered (some id) (some f) =
      on_scene-IsOrdered g v id not_found (remove_found f)

  -- If the items of all scenes are in order, they are in order after every call that succeeds.
  pub perform-IsOrdered : (c : Call) → (perform X c g).0 ≡ ok → IsOrdered (perform X c g).1
  unfolding perform create_source create_scene create_output create_transition
      update_transition_runtime
  perform-IsOrdered (source_create p) done =
      same_scenes g (create_source g p).1 (create_source_at-scenes g p p.id) v
  perform-IsOrdered (source_update id p) done =
      same_scenes g (update_source g id p).1 (update_source-scenes g id p) v
  perform-IsOrdered (source_remove id) done = remove_source-IsOrdered g v id
  perform-IsOrdered (scene_create p) done = create_scene_at-IsOrdered g v p p.id
  perform-IsOrdered (scene_rename id n) done = update_scene_name-IsOrdered g v id n
  perform-IsOrdered (scene_remove id) done = remove_scene-IsOrdered g v id
  perform-IsOrdered (item_add id p) done = add_item-IsOrdered X g id p v
  perform-IsOrdered (item_update id i p) done = update_item-IsOrdered X g id i p v
  perform-IsOrdered (item_audio id i a) done = update_item_audio-IsOrdered X g id i a v
  perform-IsOrdered (item_remove id i) done = remove_item-IsOrdered g id i v
  perform-IsOrdered (filter_add id p) done = add_filter-IsOrdered id p
  perform-IsOrdered (filter_update id f p) done = update_filter-IsOrdered id f p
  perform-IsOrdered (filter_remove id f) done = remove_filter-IsOrdered id f
  perform-IsOrdered (scene_filter_add id p) done = add_scene_filter-IsOrdered id p
  perform-IsOrdered (scene_filter_update id f p) done = update_scene_filter-IsOrdered id f p
  perform-IsOrdered (scene_filter_remove id f) done = remove_scene_filter-IsOrdered id f
  perform-IsOrdered (output_create p) done =
      same_scenes g (create_output g p).1 (create_output_at-scenes g p p.id) v
  perform-IsOrdered (output_remove id) done =
      same_scenes g (remove_output g id).1 (remove_output-scenes g id) v
  perform-IsOrdered (transition_create p) done =
      same_scenes g (create_transition g p).1 (create_transition_at-scenes g p p.id) v
  perform-IsOrdered (transition_update id ms) done =
      same_scenes g (update_transition g id ms).1 (update_transition-scenes g id ms) v
  perform-IsOrdered (default_transition id) done =
      same_scenes g (set_default_transition g id).1 (set_default_transition-scenes g id) v
  perform-IsOrdered (scene_activate id t now) done =
      same_scenes g (set_active_scene g id t now).1 (set_active_scene-scenes g id t now) v
  perform-IsOrdered (scene_preview id) done =
      same_scenes g (set_preview_scene g id).1 (set_preview_scene-scenes g id) v
  perform-IsOrdered (preview_take t now) done =
      same_scenes g (transition_to_preview g t now).1 (transition_to_preview-scenes g t now) v
  perform-IsOrdered (items_reorder id ids) done = reorder_items-IsOrdered X g id ids v done
  perform-IsOrdered (runtime_update now) done =
      same_scenes g (update_transition_runtime X g now) refl v
