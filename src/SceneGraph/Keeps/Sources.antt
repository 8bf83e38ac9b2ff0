-- ===== src/SceneGraph/Keeps/Sources.antt =====
-- The invariant and the operations on sources, outputs and transitions.
use sbs_server.Prelude.{
  ◌≡◌, refl, true, false, not, Option, none, some, if_elim, Option-cases, inl, inr, arith, ℕ,
}
use sbs_server.Prelude.Bytes.{Bytes}
use sbs_server.Table.{lookup, contains, insert}
use sbs_server.Table.Laws.{Every-remove}
use sbs_server.SceneGraph.Types.{
  Graph, SourceCreate, SourceUpdate, Status, OutputCreate, TransitionCreate,
}
use sbs_server.SceneGraph.Names.{valid_id}
use sbs_server.SceneGraph.Sources.{
  new_source, create_source_at, create_source, updated_source, update_source, remove_source,
}
use sbs_server.SceneGraph.Transitions.{
  new_output, create_output_at, create_output, remove_output, new_transition, create_transition_at,
  create_transition, update_transition, set_default_transition,
}
use sbs_server.SceneGraph.Filters.{put_source}
use sbs_server.SceneGraph.Invariant.{IsValid, SourceOk, OutputOk}
use sbs_server.SceneGraph.Keeps.Tables.{scenes_without_source, Names-map_values, nil_of_map_values}
use sbs_server.SceneGraph.Keeps.Parts.{
  bump_version-IsValid, put_source-IsValid, found-SourceOk, put_output-IsValid,
  put_transition-IsValid, found-TransitionOk,
}

abbrev pub ResultOk : Status × Graph → Type 0
ResultOk r = IsValid r.1

pub valid_of_not : (id : Bytes) → not (valid_id id) ≡ false → valid_id id ≡ true
valid_of_not id h = ground arith

create_source_at-IsValid :
    (g : Graph) (p : SourceCreate) (id : Option Bytes)
    → IsValid g
    → IsValid (create_source_at g p id).1
unfolding create_source_at new_source
create_source_at-IsValid g p none v = v
create_source_at-IsValid g p (some id) v =
    if_elim ResultOk (not (valid_id id)) (λ _. v)
      (λ good.
        if_elim ResultOk (contains id g.sources) (λ _. v)
          (λ _.
            bump_version-IsValid (put_source g id (new_source id p))
              (put_source-IsValid g v id (new_source id p) (refl, valid_of_not id good))))

pub create_source-IsValid :
    (g : Graph) (p : SourceCreate) → IsValid g → IsValid (create_source g p).1
unfolding create_source
create_source-IsValid g p v = create_source_at-IsValid g p p.id v

pub update_source-IsValid :
    (g : Graph) (id : Option Bytes) (p : SourceUpdate)
    → IsValid g
    → IsValid (update_source g id p).1
unfolding update_source updated_source
update_source-IsValid g none p v = v
update_source-IsValid g (some id) p v = elim (Option-cases (lookup id g.sources)) [
  | inl e ↦ rw (e, update_source) v
  | inr (s, e) ↦
      rw (e, update_source)
        (bump_version-IsValid (put_source g id (updated_source s p))
          (put_source-IsValid g v id (updated_source s p) (found-SourceOk g v id s e)))
]

pub remove_source-IsValid :
    (g : Graph) (id : Option Bytes) → IsValid g → IsValid (remove_source g id).1
unfolding remove_source
remove_source-IsValid g none v = v
remove_source-IsValid g (some id) v =
    if_elim ResultOk (contains id g.sources)
      (λ _. record {
        sources = Every-remove SourceOk id g.sources v.sources;
        scenes = scenes_without_source id g.sources g.scenes v.scenes;
        outputs = v.outputs;
        transitions = v.transitions;
        active = Names-map_values g.active_scene_id id g.scenes v.active;
        preview = Names-map_values g.preview_scene_id id g.scenes v.preview;
        default_transition = v.default_transition;
        shown = λ n. nil_of_map_values _ g.scenes (v.shown n);
        runtime = v.runtime;
      })
      (λ _. v)

create_output_at-IsValid :
    (g : Graph) (p : OutputCreate) (id : Option Bytes)
    → IsValid g
    → IsValid (create_output_at g p id).1
unfolding create_output_at new_output
create_output_at-IsValid g p none v = v
create_output_at-IsValid g p (some id) v =
    if_elim ResultOk (not (valid_id id)) (λ _. v)
      (λ good.
        if_elim ResultOk (contains id g.outputs) (λ _. v)
          (λ _.
            bump_version-IsValid (record g { outputs = insert id (new_output id p) g.outputs })
              (put_output-IsValid g v id (new_output id p) (refl, valid_of_not id good))))

pub create_output-IsValid :
    (g : Graph) (p : OutputCreate) → IsValid g → IsValid (create_output g p).1
unfolding create_output
create_output-IsValid g p v = create_output_at-IsValid g p p.id v

pub remove_output-IsValid :
    (g : Graph) (id : Option Bytes) → IsValid g → IsValid (remove_output g id).1
unfolding remove_output
remove_output-IsValid g none v = v
remove_output-IsValid g (some id) v =
    if_elim ResultOk (contains id g.outputs)
      (λ _. record {
        sources = v.sources;
        scenes = v.scenes;
        outputs = Every-remove OutputOk id g.outputs v.outputs;
        transitions = v.transitions;
        active = v.active;
        preview = v.preview;
        default_transition = v.default_transition;
        shown = v.shown;
        runtime = v.runtime;
      })
      (λ _. v)

create_transition_at-IsValid :
    (g : Graph) (p : TransitionCreate) (id : Option Bytes)
    → IsValid g
    → IsValid (create_transition_at g p id).1
unfolding create_transition_at new_transition
create_transition_at-IsValid g p none v = v
create_transition_at-IsValid g p (some id) v =
    if_elim ResultOk (not (valid_id id)) (λ _. v)
      (λ good.
        if_elim ResultOk (contains id g.transitions) (λ _. v)
          (λ _.
            bump_version-IsValid
              (record g { transitions = insert id (new_transition id p) g.transitions })
              (put_transition-IsValid g v id (new_transition id p) (refl, valid_of_not id good))))

pub create_transition-IsValid :
    (g : Graph) (p : TransitionCreate) → IsValid g → IsValid (create_transition g p).1
unfolding create_transition
create_transition-IsValid g p v = create_transition_at-IsValid g p p.id v

pub update_transition-IsValid :
    (g : Graph) (id : Option Bytes) (ms : ℕ) → IsValid g → IsValid (update_transition g id ms).1
unfolding update_transition
update_transition-IsValid g none ms v = v
update_transition-IsValid g (some id) ms v = elim (Option-cases (lookup id g.transitions)) [
  | inl e ↦ rw (e, update_transition) v
  | inr (t, e) ↦
      rw (e, update_transition)
        (bump_version-IsValid
          (record g { transitions = insert id (record t { duration_ms = ms }) g.transitions })
          (put_transition-IsValid g v id (record t { duration_ms = ms })
            (found-TransitionOk g v id t e)))
]

pub set_default_transition-IsValid :
    (g : Graph) (id : Option Bytes) → IsValid g → IsValid (set_default_transition g id).1
unfolding set_default_transition
set_default_transition-IsValid g none v = v
set_default_transition-IsValid g (some id) v =
    if_elim ResultOk (contains id g.transitions)
      (λ there. record {
        sources = v.sources;
        scenes = v.scenes;
        outputs = v.outputs;
        transitions = v.transitions;
        active = v.active;
        preview = v.preview;
        default_transition = there;
        shown = v.shown;
        runtime = v.runtime;
      })
      (λ _. v)
