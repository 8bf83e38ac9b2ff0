-- ===== src/SceneGraph/Transitions.antt =====
-- Outputs, transitions, the active and the preview scene, and the running transition.
use sbs_server.Prelude.{ℕ, Bool, false, not, Option, none, some, [], if◌then◌else◌, ◌==◌, ltb}
use sbs_server.Prelude.Bytes.{Bytes, codes}
use sbs_server.Prelude.Int.{ℤ, pos, sub_ℤ}
use sbs_server.Table.{lookup, contains, insert, remove}
use sbs_server.SceneGraph.Types.{
  Status, ok, inval, not_found, Graph, Output, OutputCreate, Transition, TransitionCreate, Runtime,
  cut, fade, slide, double_zero, double_one, Double, sdr,
}
use sbs_server.SceneGraph.Externals.{Externals}
use sbs_server.SceneGraph.Names.{valid_id}
use sbs_server.SceneGraph.Copies.{or_default}
use sbs_server.SceneGraph.Sources.{bump_version}

unfoldable pub new_output : Bytes → OutputCreate → Output
new_output id p = record {
  id = id;
  name = or_default p.name id;
  enabled = p.enabled;
  autostart = p.autostart;
  encoder = [];
  sinks = [];
  running = false;
  runtime_state = codes "created";
}

unfoldable pub create_output_at : Graph → OutputCreate → Option Bytes → Status × Graph
create_output_at g p none = (inval, g)
create_output_at g p (some id) =
    if not (valid_id id)
    then (inval, g)
    else if contains id g.outputs
    then (inval, g)
    else (ok, bump_version (record g { outputs = insert id (new_output id p) g.outputs }))

-- `sbs_scene_graph_create_output`
unfoldable pub create_output : Graph → OutputCreate → Status × Graph
unfolding create_output_at
create_output g p = create_output_at g p p.id

-- `sbs_scene_graph_remove_output`
unfoldable pub remove_output : Graph → Option Bytes → Status × Graph
remove_output g none = (inval, g)
remove_output g (some id) =
    if contains id g.outputs
    then (ok, bump_version (record g { outputs = remove id g.outputs }))
    else (not_found, g)

unfoldable pub new_transition : Bytes → TransitionCreate → Transition
new_transition id p = record { id = id; kind = p.kind; duration_ms = p.duration_ms; params = [] }

unfoldable pub create_transition_at : Graph → TransitionCreate → Option Bytes → Status × Graph
create_transition_at g p none = (inval, g)
create_transition_at g p (some id) =
    if not (valid_id id) then (inval, g) else if contains id g.transitions then (inval, g) else (
      ok,
      bump_version (record g { transitions = insert id (new_transition id p) g.transitions }),
    )

-- `sbs_scene_graph_create_transition`
unfoldable pub create_transition : Graph → TransitionCreate → Status × Graph
unfolding create_transition_at
create_transition g p = create_transition_at g p p.id

-- `sbs_scene_graph_update_transition`
unfoldable pub update_transition : Graph → Option Bytes → ℕ → Status × Graph
update_transition g none duration_ms = (inval, g)
update_transition g (some id) duration_ms = elim (lookup id g.transitions) [
  | none ↦ (not_found, g)
  | some t ↦ (
    ok,
    bump_version (record g {
      transitions = insert id (record t { duration_ms = duration_ms }) g.transitions;
    }),
  )
]

-- `sbs_scene_graph_set_default_transition`
unfoldable pub set_default_transition : Graph → Option Bytes → Status × Graph
set_default_transition g none = (inval, g)
set_default_transition g (some id) =
    if contains id g.transitions
    then (ok, bump_version (record g { default_transition_id = some id }))
    else (not_found, g)

-- The last part of `set_active_scene`: the transition is known, or there is none.
unfoldable pub started_runtime :
    Option Bytes → Bytes → Option Bytes → Option Transition → ℤ → Runtime
started_runtime from to transition_id none now = record {
  active = false;
  from_scene_id = from;
  to_scene_id = some to;
  transition_id = transition_id;
  kind = cut;
  duration_ms = 0;
  progress = double_one;
  start_time_us = now;
}
started_runtime from to transition_id (some t) now =
    let timed : Bool = ltb 0 t.duration_ms in
    let active : Bool = elim t.kind [ cut ↦ false | fade ↦ timed | slide ↦ timed ] in
    record {
      active = active;
      from_scene_id = from;
      to_scene_id = some to;
      transition_id = transition_id;
      kind = t.kind;
      duration_ms = t.duration_ms;
      progress = if not active then double_one else if timed then double_zero else double_one;
      start_time_us = now;
    }

-- `transition_id ? transition_id : graph->default_transition_id`
abbrev pub resolve : Option Bytes → Option Bytes → Option Bytes
resolve none d = d
resolve (some id) d = some id

unfoldable pub activate : Graph → Bytes → Option Bytes → Option Transition → ℤ → Status × Graph
activate g scene_id transition_id transition now = (
  ok,
  bump_version (record g {
    runtime = started_runtime g.active_scene_id scene_id transition_id transition now;
    active_scene_id = some scene_id;
  }),
)

unfoldable pub activate_by : Graph → Bytes → Option Bytes → ℤ → Status × Graph
unfolding activate
activate_by g scene_id none now = activate g scene_id none none now
activate_by g scene_id (some id) now = elim (lookup id g.transitions) [
  | none ↦ (not_found, g)
  | some t ↦ activate g scene_id (some id) (some t) now
]

-- `sbs_scene_graph_set_active_scene`; `now` is `g_get_monotonic_time()`.
unfoldable pub set_active_scene : Graph → Option Bytes → Option Bytes → ℤ → Status × Graph
unfolding activate_by
set_active_scene g none transition_id now = (inval, g)
set_active_scene g (some scene_id) transition_id now =
    if contains scene_id g.scenes
    then activate_by g scene_id (resolve transition_id g.default_transition_id) now
    else (not_found, g)

-- `sbs_scene_graph_set_preview_scene`
unfoldable pub set_preview_scene : Graph → Option Bytes → Status × Graph
set_preview_scene g none = (ok, bump_version (record g { preview_scene_id = none }))
set_preview_scene g (some id) =
    if contains id g.scenes
    then (ok, bump_version (record g { preview_scene_id = some id }))
    else (not_found, g)

-- `sbs_scene_graph_transition_to_preview`
unfoldable pub transition_to_preview : Graph → Option Bytes → ℤ → Status × Graph
unfolding set_active_scene
transition_to_preview g transition_id now = elim g.preview_scene_id [
  | none ↦ (inval, g)
  | some id ↦ set_active_scene g (some id) transition_id now
]

module _ (X : Externals) where
  -- The share of the transition's time that is over.
  unfoldable pub progress_at : Runtime → ℤ → Double
  progress_at r now =
      X.div (X.div (X.of_int (sub_ℤ now r.start_time_us)) (X.of_int (pos 1000)))
        (X.of_int (pos r.duration_ms))

  unfoldable pub advanced : Runtime → ℤ → Runtime
  unfolding progress_at
  advanced r now =
      let finished : Runtime = record r { progress = double_one; active = false } in
      let progress = progress_at r now in
      if not r.active
      then r
      else if r.duration_ms == 0
      then finished
      else if X.ge progress double_one
      then finished
      else record r { progress = progress }

  -- `sbs_scene_graph_update_transition_runtime`
  unfoldable pub update_transition_runtime : Graph → ℤ → Graph
  unfolding advanced
  update_transition_runtime g now = record g { runtime = advanced g.runtime now }

-- The graph before `new_default` adds to it.
abbrev pub empty_graph : Graph
empty_graph = record {
  canvas = record {
    width = 1920;
    height = 1080;
    fps_num = 60;
    fps_den = 1;
    color_mode = sdr;
    background_color = codes "#000000";
  };
  sources = [];
  scenes = [];
  outputs = [];
  transitions = [];
  active_scene_id = none;
  preview_scene_id = none;
  default_transition_id = none;
  version = 0;
  runtime = record {
    active = false;
    from_scene_id = none;
    to_scene_id = none;
    transition_id = none;
    kind = cut;
    duration_ms = 0;
    progress = double_zero;
    start_time_us = pos 0;
  };
}

-- `cut` and `fade` of `new_default`.
abbrev pub cut_params : TransitionCreate
cut_params = record { id = some (codes "trans-cut"); kind = cut; duration_ms = 0 }

abbrev pub fade_params : TransitionCreate
fade_params = record { id = some (codes "trans-fade"); kind = fade; duration_ms = 2000 }

-- `sbs_scene_graph_new_default`
unfoldable pub new_default : Graph
unfolding create_transition
new_default =
    let with_cut = (create_transition empty_graph cut_params).1 in
    let with_fade = (create_transition with_cut fade_params).1 in
    record with_fade { default_transition_id = some (codes "trans-fade"); version = 1 }
