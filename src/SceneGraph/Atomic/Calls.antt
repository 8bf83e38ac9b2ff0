-- ===== src/SceneGraph/Atomic/Calls.antt =====
-- Failed and successful calls of the interface.
use sbs_server.Prelude.{◌≡◌, ◌≢◌, refl, Bool, true, false}
use sbs_server.Prelude.Words.{add64}
use sbs_server.SceneGraph.Types.{Graph, ok}
use sbs_server.SceneGraph.Externals.{Externals}
use sbs_server.SceneGraph.Sources.{create_source}
use sbs_server.SceneGraph.Scenes.{create_scene}
use sbs_server.SceneGraph.Transitions.{create_output, create_transition}
use sbs_server.SceneGraph.Calls.{
  Call, source_create, source_update, source_remove, scene_create, scene_rename, scene_remove,
  item_add, item_update, item_audio, item_remove, items_reorder, filter_add, filter_update,
  filter_remove, scene_filter_add, scene_filter_update, scene_filter_remove, output_create,
  output_remove, transition_create, transition_update, default_transition, scene_activate,
  scene_preview, preview_take, runtime_update, perform,
}
use sbs_server.SceneGraph.Atomic.{IsAtomic}
use sbs_server.SceneGraph.Atomic.Plain.{
  create_source_at-IsAtomic, update_source-IsAtomic, remove_source-IsAtomic,
  create_scene_at-IsAtomic, update_scene_name-IsAtomic, remove_scene-IsAtomic,
  create_output_at-IsAtomic, remove_output-IsAtomic, create_transition_at-IsAtomic,
  update_transition-IsAtomic, set_default_transition-IsAtomic, set_active_scene-IsAtomic,
  set_preview_scene-IsAtomic, transition_to_preview-IsAtomic, remove_item-IsAtomic,
}
use sbs_server.SceneGraph.Atomic.Contents.{
  add_item-IsAtomic, update_item-IsAtomic, update_item_audio-IsAtomic, reorder_items-IsCounted,
  add_filter-IsAtomic, add_scene_filter-IsAtomic, update_filter-IsAtomic,
  update_scene_filter-IsAtomic, remove_filter-IsAtomic, remove_scene_filter-IsAtomic,
}

-- The two exceptions.
abbrev pub is_reorder : Call → Bool
is_reorder (items_reorder id ids) = true
is_reorder _ = false

abbrev pub is_clock : Call → Bool
is_clock (runtime_update now) = true
is_clock _ = false

module _ (X : Externals) where
  simple-IsAtomic :
      (c : Call) (g : Graph)
      → is_reorder c ≡ false
      → is_clock c ≡ false
      → IsAtomic g (perform X c g)
  unfolding perform create_source create_scene create_output create_transition
  simple-IsAtomic (source_create p) g h k = create_source_at-IsAtomic g p p.id
  simple-IsAtomic (source_update id p) g h k = update_source-IsAtomic g id p
  simple-IsAtomic (source_remove id) g h k = remove_source-IsAtomic g id
  simple-IsAtomic (scene_create p) g h k = create_scene_at-IsAtomic g p p.id
  simple-IsAtomic (scene_rename id n) g h k = update_scene_name-IsAtomic g id n
  simple-IsAtomic (scene_remove id) g h k = remove_scene-IsAtomic g id
  simple-IsAtomic (item_add id p) g h k = add_item-IsAtomic X g id p
  simple-IsAtomic (item_update id i p) g h k = update_item-IsAtomic X g id i p
  simple-IsAtomic (item_audio id i a) g h k = update_item_audio-IsAtomic X g id i a
  simple-IsAtomic (item_remove id i) g h k = remove_item-IsAtomic g id i
  simple-IsAtomic (filter_add id p) g h k = add_filter-IsAtomic X g id p
  simple-IsAtomic (filter_update id f p) g h k = update_filter-IsAtomic X g id f p
  simple-IsAtomic (filter_remove id f) g h k = remove_filter-IsAtomic g id f
  simple-IsAtomic (scene_filter_add id p) g h k = add_scene_filter-IsAtomic X g id p
  simple-IsAtomic (scene_filter_update id f p) g h k = update_scene_filter-IsAtomic X g id f p
  simple-IsAtomic (scene_filter_remove id f) g h k = remove_scene_filter-IsAtomic g id f
  simple-IsAtomic (output_create p) g h k = create_output_at-IsAtomic g p p.id
  simple-IsAtomic (output_remove id) g h k = remove_output-IsAtomic g id
  simple-IsAtomic (transition_create p) g h k = create_transition_at-IsAtomic g p p.id
  simple-IsAtomic (transition_update id ms) g h k = update_transition-IsAtomic g id ms
  simple-IsAtomic (default_transition id) g h k = set_default_transition-IsAtomic g id
  simple-IsAtomic (scene_activate id t now) g h k = set_active_scene-IsAtomic g id t now
  simple-IsAtomic (scene_preview id) g h k = set_preview_scene-IsAtomic g id
  simple-IsAtomic (preview_take t now) g h k = transition_to_preview-IsAtomic g t now
  simple-IsAtomic (items_reorder id ids) g h k = cc
  simple-IsAtomic (runtime_update now) g h k = cc

  -- A call that fails changes nothing, unless it reorders items.
  pub failure_keeps :
      (c : Call) (g : Graph) → is_reorder c ≡ false → (perform X c g).0 ≢ ok → (perform X c g).1 ≡ g
  unfolding perform
  failure_keeps (runtime_update now) g h failed = absurd (failed refl)
  failure_keeps (source_create p) g h failed =
      (simple-IsAtomic (source_create p) g refl refl).0 failed
  failure_keeps (source_update id p) g h failed =
      (simple-IsAtomic (source_update id p) g refl refl).0 failed
  failure_keeps (source_remove id) g h failed =
      (simple-IsAtomic (source_remove id) g refl refl).0 failed
  failure_keeps (scene_create p) g h failed =
      (simple-IsAtomic (scene_create p) g refl refl).0 failed
  failure_keeps (scene_rename id n) g h failed =
      (simple-IsAtomic (scene_rename id n) g refl refl).0 failed
  failure_keeps (scene_remove id) g h failed =
      (simple-IsAtomic (scene_remove id) g refl refl).0 failed
  failure_keeps (item_add id p) g h failed = (simple-IsAtomic (item_add id p) g refl refl).0 failed
  failure_keeps (item_update id i p) g h failed =
      (simple-IsAtomic (item_update id i p) g refl refl).0 failed
  failure_keeps (item_audio id i a) g h failed =
      (simple-IsAtomic (item_audio id i a) g refl refl).0 failed
  failure_keeps (item_remove id i) g h failed =
      (simple-IsAtomic (item_remove id i) g refl refl).0 failed
  failure_keeps (filter_add id p) g h failed =
      (simple-IsAtomic (filter_add id p) g refl refl).0 failed
  failure_keeps (filter_update id f p) g h failed =
      (simple-IsAtomic (filter_update id f p) g refl refl).0 failed
  failure_keeps (filter_remove id f) g h failed =
      (simple-IsAtomic (filter_remove id f) g refl refl).0 failed
  failure_keeps (scene_filter_add id p) g h failed =
      (simple-IsAtomic (scene_filter_add id p) g refl refl).0 failed
  failure_keeps (scene_filter_update id f p) g h failed =
      (simple-IsAtomic (scene_filter_update id f p) g refl refl).0 failed
  failure_keeps (scene_filter_remove id f) g h failed =
      (simple-IsAtomic (scene_filter_remove id f) g refl refl).0 failed
  failure_keeps (output_create p) g h failed =
      (simple-IsAtomic (output_create p) g refl refl).0 failed
  failure_keeps (output_remove id) g h failed =
      (simple-IsAtomic (output_remove id) g refl refl).0 failed
  failure_keeps (transition_create p) g h failed =
      (simple-IsAtomic (transition_create p) g refl refl).0 failed
  failure_keeps (transition_update id ms) g h failed =
      (simple-IsAtomic (transition_update id ms) g refl refl).0 failed
  failure_keeps (default_transition id) g h failed =
      (simple-IsAtomic (default_transition id) g refl refl).0 failed
  failure_keeps (scene_activate id t now) g h failed =
      (simple-IsAtomic (scene_activate id t now) g refl refl).0 failed
  failure_keeps (scene_preview id) g h failed =
      (simple-IsAtomic (scene_preview id) g refl refl).0 failed
  failure_keeps (preview_take t now) g h failed =
      (simple-IsAtomic (preview_take t now) g refl refl).0 failed
  failure_keeps (items_reorder id ids) g h failed = cc

  -- A call that succeeds, other than the update of the running transition, counts the version up by
  -- one, modulo 2 ^ 64.
  pub success_counts :
      (c : Call) (g : Graph)
      → is_clock c ≡ false
      → (perform X c g).0 ≡ ok
      → (perform X c g).1.version ≡ add64 g.version 1
  unfolding perform
  success_counts (runtime_update now) g h done = cc
  success_counts (items_reorder id ids) g h done = reorder_items-IsCounted X g id ids done
  success_counts (source_create p) g h done = (simple-IsAtomic (source_create p) g refl refl).1 done
  success_counts (source_update id p) g h done =
      (simple-IsAtomic (source_update id p) g refl refl).1 done
  success_counts (source_remove id) g h done =
      (simple-IsAtomic (source_remove id) g refl refl).1 done
  success_counts (scene_create p) g h done = (simple-IsAtomic (scene_create p) g refl refl).1 done
  success_counts (scene_rename id n) g h done =
      (simple-IsAtomic (scene_rename id n) g refl refl).1 done
  success_counts (scene_remove id) g h done = (simple-IsAtomic (scene_remove id) g refl refl).1 done
  success_counts (item_add id p) g h done = (simple-IsAtomic (item_add id p) g refl refl).1 done
  success_counts (item_update id i p) g h done =
      (simple-IsAtomic (item_update id i p) g refl refl).1 done
  success_counts (item_audio id i a) g h done =
      (simple-IsAtomic (item_audio id i a) g refl refl).1 done
  success_counts (item_remove id i) g h done =
      (simple-IsAtomic (item_remove id i) g refl refl).1 done
  success_counts (filter_add id p) g h done = (simple-IsAtomic (filter_add id p) g refl refl).1 done
  success_counts (filter_update id f p) g h done =
      (simple-IsAtomic (filter_update id f p) g refl refl).1 done
  success_counts (filter_remove id f) g h done =
      (simple-IsAtomic (filter_remove id f) g refl refl).1 done
  success_counts (scene_filter_add id p) g h done =
      (simple-IsAtomic (scene_filter_add id p) g refl refl).1 done
  success_counts (scene_filter_update id f p) g h done =
      (simple-IsAtomic (scene_filter_update id f p) g refl refl).1 done
  success_counts (scene_filter_remove id f) g h done =
      (simple-IsAtomic (scene_filter_remove id f) g refl refl).1 done
  success_counts (output_create p) g h done = (simple-IsAtomic (output_create p) g refl refl).1 done
  success_counts (output_remove id) g h done =
      (simple-IsAtomic (output_remove id) g refl refl).1 done
  success_counts (transition_create p) g h done =
      (simple-IsAtomic (transition_create p) g refl refl).1 done
  success_counts (transition_update id ms) g h done =
      (simple-IsAtomic (transition_update id ms) g refl refl).1 done
  success_counts (default_transition id) g h done =
      (simple-IsAtomic (default_transition id) g refl refl).1 done
  success_counts (scene_activate id t now) g h done =
      (simple-IsAtomic (scene_activate id t now) g refl refl).1 done
  success_counts (scene_preview id) g h done =
      (simple-IsAtomic (scene_preview id) g refl refl).1 done
  success_counts (preview_take t now) g h done =
      (simple-IsAtomic (preview_take t now) g refl refl).1 done
