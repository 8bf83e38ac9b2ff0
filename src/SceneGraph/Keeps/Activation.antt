-- ===== src/SceneGraph/Keeps/Activation.antt =====
-- The invariant and the switching of scenes.
use sbs_server.Prelude.{
  ◌≡◌, ◌≢◌, ◌<◌, refl, true, false, not, Bool, Option, none, some, if_elim, Option-cases, inl, inr,
  arith, ℕ, ltb, ◌==◌,
}
use sbs_server.Prelude.Bytes.{Bytes, codes, str_eq}
use sbs_server.Prelude.Int.{ℤ}
use sbs_server.Table.{lookup, contains, insert}
use sbs_server.SceneGraph.Types.{
  Graph, Transition, Runtime, cut, fade, slide, double_one, TransitionKind,
}
use sbs_server.SceneGraph.Externals.{Externals}
use sbs_server.SceneGraph.Transitions.{
  started_runtime, activate, activate_by, resolve, set_active_scene, set_preview_scene,
  transition_to_preview, advanced, progress_at, update_transition_runtime, empty_graph, cut_params,
  fade_params, create_transition, create_transition_at, new_default,
}
use sbs_server.SceneGraph.Names.{valid_id}
use sbs_server.SceneGraph.Invariant.{IsValid, RuntimeOk}
use sbs_server.SceneGraph.Keeps.Sources.{ResultOk, create_transition-IsValid}

fade-ne-cut : fade ≢ cut
fade-ne-cut e = cc

slide-ne-cut : slide ≢ cut
slide-ne-cut e = cc

started_kind :
    (k : TransitionKind) (d : ℕ)
    → elim k as (λ _. Bool) [ cut ↦ false | fade ↦ ltb 0 d | slide ↦ ltb 0 d ] ≡ true
    → (k ≢ cut) × (0 < d)
started_kind cut d h = cc
started_kind fade d h = (fade-ne-cut, ground arith)
started_kind slide d h = (slide-ne-cut, ground arith)

pub started_runtime-RuntimeOk :
    (from : Option Bytes) (to : Bytes) (id : Option Bytes) (t : Option Transition) (now : ℤ)
    → RuntimeOk (started_runtime from to id t now)
unfolding started_runtime
started_runtime-RuntimeOk from to id none now h = cc
started_runtime-RuntimeOk from to id (some t) now h = started_kind t.kind t.duration_ms h

pub advanced-RuntimeOk :
    (X : Externals) (r : Runtime) (now : ℤ) → RuntimeOk r → RuntimeOk (advanced X r now)
unfolding advanced
advanced-RuntimeOk X r now h =
    if_elim RuntimeOk (not r.active) (λ _. h)
      (λ _.
        if_elim RuntimeOk (r.duration_ms == 0) (λ _ e. cc)
          (λ _. if_elim RuntimeOk (X.ge (progress_at X r now) double_one) (λ _ e. cc) (λ _. h)))

module _ (g : Graph) (v : IsValid g) where
  activate-IsValid :
      (k : Bytes) (id : Option Bytes) (t : Option Transition) (now : ℤ)
      → contains k g.scenes ≡ true
      → IsValid (activate g k id t now).1
  unfolding activate
  activate-IsValid k id t now there = record {
    sources = v.sources;
    scenes = v.scenes;
    outputs = v.outputs;
    transitions = v.transitions;
    active = there;
    preview = v.preview;
    default_transition = v.default_transition;
    shown = λ n. cc;
    runtime = started_runtime-RuntimeOk g.active_scene_id k id t now;
  }

  activate_by-IsValid :
      (k : Bytes) (id : Option Bytes) (now : ℤ)
      → contains k g.scenes ≡ true
      → IsValid (activate_by g k id now).1
  unfolding activate_by
  activate_by-IsValid k none now there = activate-IsValid k none none now there
  activate_by-IsValid k (some id) now there = elim (Option-cases (lookup id g.transitions)) [
    | inl e ↦ rw (e, activate_by) v
    | inr (t, e) ↦ rw (e, activate_by) (activate-IsValid k (some id) (some t) now there)
  ]

  pub set_active_scene-IsValid :
      (k id : Option Bytes) (now : ℤ) → IsValid (set_active_scene g k id now).1
  unfolding set_active_scene
  set_active_scene-IsValid none id now = v
  set_active_scene-IsValid (some k) id now =
      if_elim ResultOk (contains k g.scenes)
        (activate_by-IsValid k (resolve id g.default_transition_id) now) (λ _. v)

  pub set_preview_scene-IsValid : (k : Option Bytes) → IsValid (set_preview_scene g k).1
  unfolding set_preview_scene
  set_preview_scene-IsValid none = record {
    sources = v.sources;
    scenes = v.scenes;
    outputs = v.outputs;
    transitions = v.transitions;
    active = v.active;
    preview = tt;
    default_transition = v.default_transition;
    shown = v.shown;
    runtime = v.runtime;
  }
  set_preview_scene-IsValid (some k) =
      if_elim ResultOk (contains k g.scenes)
        (λ there. record {
          sources = v.sources;
          scenes = v.scenes;
          outputs = v.outputs;
          transitions = v.transitions;
          active = v.active;
          preview = there;
          default_transition = v.default_transition;
          shown = v.shown;
          runtime = v.runtime;
        })
        (λ _. v)

  pub transition_to_preview-IsValid :
      (id : Option Bytes) (now : ℤ) → IsValid (transition_to_preview g id now).1
  unfolding transition_to_preview
  transition_to_preview-IsValid id now = elim (Option-cases g.preview_scene_id) [
    | inl e ↦ rw (e, transition_to_preview) v
    | inr (k, e) ↦ rw (e, transition_to_preview) (set_active_scene-IsValid (some k) id now)
  ]

  pub update_transition_runtime-IsValid :
      (X : Externals) (now : ℤ) → IsValid (update_transition_runtime X g now)
  unfolding update_transition_runtime
  update_transition_runtime-IsValid X now = record {
    sources = v.sources;
    scenes = v.scenes;
    outputs = v.outputs;
    transitions = v.transitions;
    active = v.active;
    preview = v.preview;
    default_transition = v.default_transition;
    shown = v.shown;
    runtime = advanced-RuntimeOk X g.runtime now v.runtime;
  }

empty_graph-IsValid : IsValid empty_graph
empty_graph-IsValid = record {
  sources = tt;
  scenes = tt;
  outputs = tt;
  transitions = tt;
  active = tt;
  preview = tt;
  default_transition = tt;
  shown = λ _. refl;
  runtime = λ e. cc;
}

with_default-IsValid :
    (g : Graph) (id : Bytes)
    → IsValid g
    → contains id g.transitions ≡ true
    → IsValid (record g { default_transition_id = some id; version = 1 })
with_default-IsValid g id v there = record {
  sources = v.sources;
  scenes = v.scenes;
  outputs = v.outputs;
  transitions = v.transitions;
  active = v.active;
  preview = v.preview;
  default_transition = there;
  shown = v.shown;
  runtime = v.runtime;
}

pub new_default-IsValid : IsValid new_default
unfolding new_default create_transition create_transition_at lookup insert valid_id str_eq
new_default-IsValid =
    let with_cut = (create_transition empty_graph cut_params).1 in
    with_default-IsValid (create_transition with_cut fade_params).1 (codes "trans-fade")
      (create_transition-IsValid with_cut fade_params
        (create_transition-IsValid empty_graph cut_params empty_graph-IsValid))
      refl
