-- ===== src/SceneGraph/Atomic/Plain.antt =====
-- Sources, scenes, outputs and transitions: failed and successful operations.
use sbs_server.Prelude.{◌≢◌, ℕ, Option, none, some, arith, List}
use sbs_server.Prelude.Bytes.{Bytes}
use sbs_server.Prelude.Int.{ℤ}
use sbs_server.SceneGraph.Types.{
  Graph, Status, ok, SourceCreate, SourceUpdate, SceneCreate, OutputCreate, TransitionCreate,
  Filter,
}
use sbs_server.SceneGraph.Sources.{create_source_at, update_source, remove_source}
use sbs_server.SceneGraph.Scenes.{
  create_scene_at, rename_found, update_scene_name, remove_scene, remove_in, remove_item,
}
use sbs_server.SceneGraph.Filters.{on_source, on_scene}
use sbs_server.SceneGraph.Transitions.{
  create_output_at, remove_output, create_transition_at, update_transition, set_default_transition,
  activate, activate_by, set_active_scene, set_preview_scene, transition_to_preview,
}
use sbs_server.SceneGraph.Atomic.{IsAtomic}

module _ (g : Graph) where
  pub create_source_at-IsAtomic :
      (p : SourceCreate) (id : Option Bytes) → IsAtomic g (create_source_at g p id)
  unfolding create_source_at
  create_source_at-IsAtomic p none = ground arith
  create_source_at-IsAtomic p (some id) = ground arith

  pub update_source-IsAtomic :
      (id : Option Bytes) (p : SourceUpdate) → IsAtomic g (update_source g id p)
  unfolding update_source
  update_source-IsAtomic none p = ground arith
  update_source-IsAtomic (some id) p = ground arith

  pub remove_source-IsAtomic : (id : Option Bytes) → IsAtomic g (remove_source g id)
  unfolding remove_source
  remove_source-IsAtomic none = ground arith
  remove_source-IsAtomic (some id) = ground arith

  pub create_scene_at-IsAtomic :
      (p : SceneCreate) (id : Option Bytes) → IsAtomic g (create_scene_at g p id)
  unfolding create_scene_at
  create_scene_at-IsAtomic p none = ground arith
  create_scene_at-IsAtomic p (some id) = ground arith

  pub update_scene_name-IsAtomic :
      (id name : Option Bytes) → IsAtomic g (update_scene_name g id name)
  unfolding update_scene_name rename_found
  update_scene_name-IsAtomic none n = ground arith
  update_scene_name-IsAtomic (some id) none = ground arith
  update_scene_name-IsAtomic (some id) (some n) = ground arith

  pub remove_scene-IsAtomic : (id : Option Bytes) → IsAtomic g (remove_scene g id)
  unfolding remove_scene
  remove_scene-IsAtomic none = ground arith
  remove_scene-IsAtomic (some id) = ground arith

  pub create_output_at-IsAtomic :
      (p : OutputCreate) (id : Option Bytes) → IsAtomic g (create_output_at g p id)
  unfolding create_output_at
  create_output_at-IsAtomic p none = ground arith
  create_output_at-IsAtomic p (some id) = ground arith

  pub remove_output-IsAtomic : (id : Option Bytes) → IsAtomic g (remove_output g id)
  unfolding remove_output
  remove_output-IsAtomic none = ground arith
  remove_output-IsAtomic (some id) = ground arith

  pub create_transition_at-IsAtomic :
      (p : TransitionCreate) (id : Option Bytes) → IsAtomic g (create_transition_at g p id)
  unfolding create_transition_at
  create_transition_at-IsAtomic p none = ground arith
  create_transition_at-IsAtomic p (some id) = ground arith

  pub update_transition-IsAtomic :
      (id : Option Bytes) (ms : ℕ) → IsAtomic g (update_transition g id ms)
  unfolding update_transition
  update_transition-IsAtomic none ms = ground arith
  update_transition-IsAtomic (some id) ms = ground arith

  pub set_default_transition-IsAtomic :
      (id : Option Bytes) → IsAtomic g (set_default_transition g id)
  unfolding set_default_transition
  set_default_transition-IsAtomic none = ground arith
  set_default_transition-IsAtomic (some id) = ground arith

  pub set_active_scene-IsAtomic :
      (k id : Option Bytes) (now : ℤ) → IsAtomic g (set_active_scene g k id now)
  unfolding set_active_scene activate_by activate
  set_active_scene-IsAtomic none id now = ground arith
  set_active_scene-IsAtomic (some k) id now = ground arith

  pub set_preview_scene-IsAtomic : (k : Option Bytes) → IsAtomic g (set_preview_scene g k)
  unfolding set_preview_scene
  set_preview_scene-IsAtomic none = ground arith
  set_preview_scene-IsAtomic (some k) = ground arith

  pub transition_to_preview-IsAtomic :
      (id : Option Bytes) (now : ℤ) → IsAtomic g (transition_to_preview g id now)
  unfolding transition_to_preview set_active_scene activate_by activate
  transition_to_preview-IsAtomic id now = ground arith

  pub remove_item-IsAtomic : (k id : Option Bytes) → IsAtomic g (remove_item g k id)
  unfolding remove_item remove_in
  remove_item-IsAtomic none id = ground arith
  remove_item-IsAtomic (some k) none = ground arith
  remove_item-IsAtomic (some k) (some id) = ground arith

  pub on_source-IsAtomic :
      (id : Bytes) (r : Status) (f : List Filter → Option (List Filter))
      → r ≢ ok
      → IsAtomic g (on_source g id r f)
  on_source-IsAtomic id r f h = ground arith

  pub on_scene-IsAtomic :
      (id : Bytes) (r : Status) (f : List Filter → Option (List Filter))
      → r ≢ ok
      → IsAtomic g (on_scene g id r f)
  on_scene-IsAtomic id r f h = ground arith
