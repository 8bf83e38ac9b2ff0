-- ===== src/SceneGraph/Calls.antt =====
-- The interface of scene_graph.c as calls: a history is a list of them. `sbs_scene_graph_steal_source`,
-- which leaves items without a source, is not among them.
use sbs_server.Prelude.{ℕ, Option, List, [], ◌∷◌}
use sbs_server.Prelude.Bytes.{Bytes}
use sbs_server.Prelude.Int.{ℤ}
use sbs_server.SceneGraph.Types.{
  Graph, Status, ok, SourceCreate, SourceUpdate, SceneCreate, ItemCreate, ItemUpdate, AudioBinding,
  FilterCreate, FilterUpdate, OutputCreate, TransitionCreate,
}
use sbs_server.SceneGraph.Externals.{Externals}
use sbs_server.SceneGraph.Sources.{create_source, update_source, remove_source}
use sbs_server.SceneGraph.Scenes.{
  create_scene, update_scene_name, remove_scene, add_item, update_item, update_item_audio,
  remove_item, reorder_items,
}
use sbs_server.SceneGraph.Filters.{
  add_filter, add_scene_filter, update_filter, update_scene_filter, remove_filter,
  remove_scene_filter,
}
use sbs_server.SceneGraph.Transitions.{
  create_output, remove_output, create_transition, update_transition, set_default_transition,
  set_active_scene, set_preview_scene, transition_to_preview, update_transition_runtime,
}

pub data Call : Type 0 where
  source_create : SourceCreate → Call
  source_update : Option Bytes → SourceUpdate → Call
  source_remove : Option Bytes → Call
  scene_create : SceneCreate → Call
  scene_rename : Option Bytes → Option Bytes → Call
  scene_remove : Option Bytes → Call
  item_add : Option Bytes → ItemCreate → Call
  item_update : Option Bytes → Option Bytes → ItemUpdate → Call
  item_audio : Option Bytes → Option Bytes → Option AudioBinding → Call
  item_remove : Option Bytes → Option Bytes → Call
  items_reorder : Option Bytes → Option (List (Option Bytes)) → Call
  filter_add : Option Bytes → FilterCreate → Call
  filter_update : Option Bytes → Option Bytes → FilterUpdate → Call
  filter_remove : Option Bytes → Option Bytes → Call
  scene_filter_add : Option Bytes → FilterCreate → Call
  scene_filter_update : Option Bytes → Option Bytes → FilterUpdate → Call
  scene_filter_remove : Option Bytes → Option Bytes → Call
  output_create : OutputCreate → Call
  output_remove : Option Bytes → Call
  transition_create : TransitionCreate → Call
  transition_update : Option Bytes → ℕ → Call
  default_transition : Option Bytes → Call
  scene_activate : Option Bytes → Option Bytes → ℤ → Call
  scene_preview : Option Bytes → Call
  preview_take : Option Bytes → ℤ → Call
  runtime_update : ℤ → Call

module _ (X : Externals) where
  unfoldable pub perform : Call → Graph → Status × Graph
  perform (source_create p) g = create_source g p
  perform (source_update id p) g = update_source g id p
  perform (source_remove id) g = remove_source g id
  perform (scene_create p) g = create_scene g p
  perform (scene_rename id name) g = update_scene_name g id name
  perform (scene_remove id) g = remove_scene g id
  perform (item_add id p) g = add_item X g id p
  perform (item_update id item_id p) g = update_item X g id item_id p
  perform (item_audio id item_id a) g = update_item_audio X g id item_id a
  perform (item_remove id item_id) g = remove_item g id item_id
  perform (items_reorder id ids) g = reorder_items X g id ids
  perform (filter_add id p) g = add_filter X g id p
  perform (filter_update id f p) g = update_filter X g id f p
  perform (filter_remove id f) g = remove_filter g id f
  perform (scene_filter_add id p) g = add_scene_filter X g id p
  perform (scene_filter_update id f p) g = update_scene_filter X g id f p
  perform (scene_filter_remove id f) g = remove_scene_filter g id f
  perform (output_create p) g = create_output g p
  perform (output_remove id) g = remove_output g id
  perform (transition_create p) g = create_transition g p
  perform (transition_update id ms) g = update_transition g id ms
  perform (default_transition id) g = set_default_transition g id
  perform (scene_activate id t now) g = set_active_scene g id t now
  perform (scene_preview id) g = set_preview_scene g id
  perform (preview_take t now) g = transition_to_preview g t now
  perform (runtime_update now) g = (ok, update_transition_runtime X g now)

  -- Calls one after another.
  unfoldable pub run : List Call → Graph → Graph
  unfolding perform
  run [] g = g
  run (c ∷ cs) g = run cs (perform c g).1
