-- ===== src/SceneGraph/Activation.antt =====
-- Switching the active scene, and the life of the running transition.
use mathlib.Core.Path.{subst, sym}
use sbs_server.Prelude.{
  ◌≡◌, ltb, refl, true, false, Bool, ℕ, Option, none, some, not, arith, Option-cases, inl, inr,
  if◌then◌else◌,
}
use sbs_server.Prelude.Bytes.{Bytes}
use sbs_server.Prelude.Int.{ℤ}
use sbs_server.Table.{lookup, contains}
use sbs_server.SceneGraph.Types.{
  Graph, Status, ok, Transition, TransitionKind, cut, fade, slide, double_one, double_zero,
}
use sbs_server.SceneGraph.Transitions.{
  started_runtime, resolve, activate, activate_by, set_active_scene, transition_to_preview,
}
use sbs_server.SceneGraph.Invariant.{IsValid, Names}

-- A transition that takes time.
abbrev pub takes_time : Option Transition → Bool
takes_time none = false
takes_time (some t) = elim t.kind [
  | cut ↦ false
  | fade ↦ ltb 0 t.duration_ms
  | slide ↦ ltb 0 t.duration_ms
]

started_progress :
    (k : TransitionKind) (d : ℕ)
    → let timed = ltb 0 d in
      let active = elim k as (λ _. Bool) [ cut ↦ false | fade ↦ timed | slide ↦ timed ] in
      (if not active then double_one else if timed then double_zero else double_one)
      ≡ (if active then double_zero else double_one)
started_progress cut d = refl
started_progress fade d = ground arith
started_progress slide d = ground arith

-- The transition that an activation uses, if it asks for one that is there.
abbrev pub chosen : Graph → Option Bytes → Option Transition
chosen g transition_id = elim (resolve transition_id g.default_transition_id) [
  | none ↦ none
  | some id ↦ lookup id g.transitions
]

-- What a successful activation leaves.
abbrev pub Shows : Graph → Bytes → Option Transition → Graph → Type 0
Shows g k t h =
    (h.active_scene_id ≡ some k)
    × (h.runtime.from_scene_id ≡ g.active_scene_id)
    × (h.runtime.to_scene_id ≡ some k)
    × (h.runtime.active ≡ takes_time t)
    × (h.runtime.progress ≡ (if takes_time t then double_zero else double_one))

activate-Shows :
    (g : Graph) (k : Bytes) (id : Option Bytes) (t : Option Transition) (now : ℤ)
    → Shows g k t (activate g k id t now).1
unfolding activate started_runtime
activate-Shows g k id none now = (refl, refl, refl, refl, refl)
activate-Shows g k id (some t) now = (refl, refl, refl, refl, started_progress t.kind t.duration_ms)

activate_by-Shows :
    (g : Graph) (k i : Bytes) (now : ℤ)
    → contains i g.transitions ≡ true
    → ((activate_by g k (some i) now).0 ≡ ok)
      × Shows g k (lookup i g.transitions) (activate_by g k (some i) now).1
unfolding activate_by activate
activate_by-Shows g k i now there = elim (Option-cases (lookup i g.transitions)) [
  | inl e ↦ absurd (ground arith)
  | inr (t, e) ↦ rw (e, activate_by) (refl, activate-Shows g k (some i) (some t) now)
]

resolved-Shows :
    (g : Graph) (k : Bytes) (o : Option Bytes) (now : ℤ)
    → Names o g.transitions
    → ((activate_by g k o now).0 ≡ ok)
      × Shows g k
          (elim o [ none ↦ none | some i ↦ lookup i g.transitions ])
          (activate_by g k o now).1
unfolding activate_by activate
resolved-Shows g k none now h = (refl, activate-Shows g k none none now)
resolved-Shows g k (some i) now h = activate_by-Shows g k i now h

Names-resolve :
    (g : Graph) (id : Option Bytes)
    → IsValid g
    → Names id g.transitions
    → Names (resolve id g.default_transition_id) g.transitions
Names-resolve g none v h = v.default_transition
Names-resolve g (some i) v h = h

-- In a valid graph, activating a scene that is there succeeds if the transition asked for is there or
-- none is asked for. The scene is then active, the transition runs from the scene active before to
-- it, and it is under way, at progress 0, exactly if the chosen transition is no cut and takes time.
pub set_active_scene-Shows :
    (g : Graph) (k : Bytes) (id : Option Bytes) (now : ℤ)
    → IsValid g
    → contains k g.scenes ≡ true
    → Names id g.transitions
    → ((set_active_scene g (some k) id now).0 ≡ ok)
      × Shows g k (chosen g id) (set_active_scene g (some k) id now).1
unfolding set_active_scene
set_active_scene-Shows g k id now v there known =
    rw (there, set_active_scene)
      (resolved-Shows g k (resolve id g.default_transition_id) now (Names-resolve g id v known))

-- In a valid graph with a preview scene, taking the preview succeeds if the transition asked for is
-- there or none is asked for, and does to the preview scene what an activation does.
pub transition_to_preview-Shows :
    (g : Graph) (k : Bytes) (id : Option Bytes) (now : ℤ)
    → IsValid g
    → g.preview_scene_id ≡ some k
    → Names id g.transitions
    → ((transition_to_preview g id now).0 ≡ ok)
      × Shows g k (chosen g id) (transition_to_preview g id now).1
unfolding transition_to_preview
transition_to_preview-Shows g k id now v e known =
    let there : contains k g.scenes ≡ true = (subst (λ o. Names o g.scenes) e v.preview) in
    let shown = set_active_scene-Shows g k id now v there known in
    let same : transition_to_preview g id now ≡ set_active_scene g (some k) id now = ground arith in
    subst (λ (r : Status × Graph). (r.0 ≡ ok) × Shows g k (chosen g id) r.1) (sym same) shown
