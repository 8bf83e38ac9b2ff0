-- ===== src/SceneGraph/Order/Unchanged.antt =====
-- The operations that leave the table of scenes as it is.
use sbs_server.Prelude.{◌≡◌, ℕ, Option, none, some, arith, List}
use sbs_server.Prelude.Bytes.{Bytes}
use sbs_server.Prelude.Int.{ℤ}
use sbs_server.SceneGraph.Types.{
  Graph, Status, SourceCreate, SourceUpdate, OutputCreate, TransitionCreate, Filter,
}
use sbs_server.SceneGraph.Sources.{create_source_at, update_source}
use sbs_server.SceneGraph.Filters.{on_source}
use sbs_server.SceneGraph.Transitions.{
  create_output_at, remove_output, create_transition_at, update_transition, set_default_transition,
  activate, activate_by, set_active_scene, set_preview_scene, transition_to_preview,
}

module _ (g : Graph) where
  pub create_source_at-scenes :
      (p : SourceCreate) (id : Option Bytes) → (create_source_at g p id).1.scenes ≡ g.scenes
  unfolding create_source_at
  create_source_at-scenes p none = ground arith
  create_source_at-scenes p (some id) = ground arith

  pub update_source-scenes :
      (id : Option Bytes) (p : SourceUpdate) → (update_source g id p).1.scenes ≡ g.scenes
  unfolding update_source
  update_source-scenes none p = ground arith
  update_source-scenes (some id) p = ground arith

  pub create_output_at-scenes :
      (p : OutputCreate) (id : Option Bytes) → (create_output_at g p id).1.scenes ≡ g.scenes
  unfolding create_output_at
  create_output_at-scenes p none = ground arith
  create_output_at-scenes p (some id) = ground arith

  pub remove_output-scenes : (id : Option Bytes) → (remove_output g id).1.scenes ≡ g.scenes
  unfolding remove_output
  remove_output-scenes none = ground arith
  remove_output-scenes (some id) = ground arith

  pub create_transition_at-scenes :
      (p : TransitionCreate) (id : Option Bytes) → (create_transition_at g p id).1.scenes ≡ g.scenes
  unfolding create_transition_at
  create_transition_at-scenes p none = ground arith
  create_transition_at-scenes p (some id) = ground arith

  pub update_transition-scenes :
      (id : Option Bytes) (ms : ℕ) → (update_transition g id ms).1.scenes ≡ g.scenes
  unfolding update_transition
  update_transition-scenes none ms = ground arith
  update_transition-scenes (some id) ms = ground arith

  pub set_default_transition-scenes :
      (id : Option Bytes) → (set_default_transition g id).1.scenes ≡ g.scenes
  unfolding set_default_transition
  set_default_transition-scenes none = ground arith
  set_default_transition-scenes (some id) = ground arith

  pub set_active_scene-scenes :
      (k id : Option Bytes) (now : ℤ) → (set_active_scene g k id now).1.scenes ≡ g.scenes
  unfolding set_active_scene activate_by activate
  set_active_scene-scenes none id now = ground arith
  set_active_scene-scenes (some k) id now = ground arith

  pub set_preview_scene-scenes : (k : Option Bytes) → (set_preview_scene g k).1.scenes ≡ g.scenes
  unfolding set_preview_scene
  set_preview_scene-scenes none = ground arith
  set_preview_scene-scenes (some k) = ground arith

  pub transition_to_preview-scenes :
      (id : Option Bytes) (now : ℤ) → (transition_to_preview g id now).1.scenes ≡ g.scenes
  unfolding transition_to_preview set_active_scene activate_by activate
  transition_to_preview-scenes id now = ground arith

  pub on_source-scenes :
      (id : Bytes) (r : Status) (f : List Filter → Option (List Filter))
      → (on_source g id r f).1.scenes ≡ g.scenes
  on_source-scenes id r f = ground arith
