-- ===== src/SceneGraph/History.antt =====
-- The invariant of the scene graph along histories of calls.
use sbs_server.Prelude.{List, [], ◌∷◌}
use sbs_server.SceneGraph.Types.{Graph}
use sbs_server.SceneGraph.Externals.{Externals}
use sbs_server.SceneGraph.Calls.{
  Call, source_create, source_update, source_remove, scene_create, scene_rename, scene_remove,
  item_add, item_update, item_audio, item_remove, items_reorder, filter_add, filter_update,
  filter_remove, scene_filter_add, scene_filter_update, scene_filter_remove, output_create,
  output_remove, transition_create, transition_update, default_transition, scene_activate,
  scene_preview, preview_take, runtime_update, perform, run,
}
use sbs_server.SceneGraph.Transitions.{new_default}
use sbs_server.SceneGraph.Invariant.{IsValid}
use sbs_server.SceneGraph.Keeps.Sources.{
  create_source-IsValid, update_source-IsValid, remove_source-IsValid, create_output-IsValid,
  remove_output-IsValid, create_transition-IsValid, update_transition-IsValid,
  set_default_transition-IsValid,
}
use sbs_server.SceneGraph.Keeps.Scenes.{
  create_scene-IsValid, update_scene_name-IsValid, remove_scene-IsValid,
}
use sbs_server.SceneGraph.Keeps.SceneItems.{
  add_item-IsValid, update_item-IsValid, update_item_audio-IsValid, remove_item-IsValid,
  reorder_items-IsValid,
}
use sbs_server.SceneGraph.Keeps.Filters.{
  add_filter-IsValid, add_scene_filter-IsValid, update_filter-IsValid, update_scene_filter-IsValid,
  remove_filter-IsValid, remove_scene_filter-IsValid,
}
use sbs_server.SceneGraph.Keeps.Activation.{
  set_active_scene-IsValid, set_preview_scene-IsValid, transition_to_preview-IsValid,
  update_transition_runtime-IsValid, new_default-IsValid,
}

module _ (X : Externals) where
  -- Every call of the interface leaves a valid graph valid, whether it succeeds or fails.
  pub perform-IsValid : (c : Call) (g : Graph) → IsValid g → IsValid (perform X c g).1
  unfolding perform
  perform-IsValid (source_create p) g v = create_source-IsValid g p v
  perform-IsValid (source_update id p) g v = update_source-IsValid g id p v
  perform-IsValid (source_remove id) g v = remove_source-IsValid g id v
  perform-IsValid (scene_create p) g v = create_scene-IsValid g p v
  perform-IsValid (scene_rename id name) g v = update_scene_name-IsValid g id name v
  perform-IsValid (scene_remove id) g v = remove_scene-IsValid g id v
  perform-IsValid (item_add id p) g v = add_item-IsValid X g id p v
  perform-IsValid (item_update id item_id p) g v = update_item-IsValid X g id item_id p v
  perform-IsValid (item_audio id item_id a) g v = update_item_audio-IsValid X g id item_id a v
  perform-IsValid (item_remove id item_id) g v = remove_item-IsValid g id item_id v
  perform-IsValid (items_reorder id ids) g v = reorder_items-IsValid X g id ids v
  perform-IsValid (filter_add id p) g v = add_filter-IsValid X g v id p
  perform-IsValid (filter_update id f p) g v = update_filter-IsValid X g v id f p
  perform-IsValid (filter_remove id f) g v = remove_filter-IsValid g v id f
  perform-IsValid (scene_filter_add id p) g v = add_scene_filter-IsValid X g v id p
  perform-IsValid (scene_filter_update id f p) g v = update_scene_filter-IsValid X g v id f p
  perform-IsValid (scene_filter_remove id f) g v = remove_scene_filter-IsValid g v id f
  perform-IsValid (output_create p) g v = create_output-IsValid g p v
  perform-IsValid (output_remove id) g v = remove_output-IsValid g id v
  perform-IsValid (transition_create p) g v = create_transition-IsValid g p v
  perform-IsValid (transition_update id ms) g v = update_transition-IsValid g id ms v
  perform-IsValid (default_transition id) g v = set_default_transition-IsValid g id v
  perform-IsValid (scene_activate id t now) g v = set_active_scene-IsValid g v id t now
  perform-IsValid (scene_preview id) g v = set_preview_scene-IsValid g v id
  perform-IsValid (preview_take t now) g v = transition_to_preview-IsValid g v t now
  perform-IsValid (runtime_update now) g v = update_transition_runtime-IsValid g v X now

  run-IsValid : (cs : List Call) (g : Graph) → IsValid g → IsValid (run X cs g)
  unfolding run
  run-IsValid [] g v = v
  run-IsValid (c ∷ cs) g v = run-IsValid cs (perform X c g).1 (perform-IsValid c g v)

  -- From the graph that `new_default` makes, no sequence of calls leads to an item without a source,
  -- to an active, preview or default id that names nothing, to scenes without an active one, to an
  -- entry under another id than its own, or to a running cut or a running transition of no length.
  pub history-IsValid : (cs : List Call) → IsValid (run X cs new_default)
  history-IsValid cs = run-IsValid cs new_default new_default-IsValid
