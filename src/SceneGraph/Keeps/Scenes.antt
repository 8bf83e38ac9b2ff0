-- ===== src/SceneGraph/Keeps/Scenes.antt =====
-- The invariant and the operations on scenes.
use sbs_server.Prelude.{
  ◌≡◌, ◌≢◌, refl, false, not, Option, none, some, [], ◌∷◌, if_elim, Option-cases, inl, inr, arith,
  if◌then◌else◌,
}
use sbs_server.Prelude.Bytes.{Bytes, str_eq0, str_eq_iff}
use sbs_server.Table.{Table, lookup, contains, insert, remove}
use sbs_server.Table.Laws.{Every-remove, Every-insert}
use sbs_server.SceneGraph.Types.{Graph, Scene, SceneCreate}
use sbs_server.SceneGraph.Names.{valid_id}
use sbs_server.SceneGraph.Scenes.{
  new_scene, first_active, create_scene_at, create_scene, put_scene, rename_found,
  update_scene_name, remove_scene,
}
use sbs_server.SceneGraph.Invariant.{IsValid, SceneOk, Names}
use sbs_server.SceneGraph.Keeps.Tables.{contains-insert_self, contains-remove, Names-insert}
use sbs_server.SceneGraph.Keeps.Parts.{bump_version-IsValid, put_scene-IsValid, found-SceneOk}
use sbs_server.SceneGraph.Keeps.Sources.{ResultOk, valid_of_not}

Names-first_active :
    (a : Option Bytes) (id : Bytes) (sc : Scene) (m : Table Scene)
    → Names a m
    → Names (first_active a id) (insert id sc m)
Names-first_active none id sc m h = contains-insert_self id sc m
Names-first_active (some a) id sc m h = Names-insert (some a) id sc m h

first_active-ne-none : (a : Option Bytes) (id : Bytes) → first_active a id ≢ none
first_active-ne-none none id e = cc
first_active-ne-none (some a) id e = cc

create_scene_at-IsValid :
    (g : Graph) (p : SceneCreate) (id : Option Bytes)
    → IsValid g
    → IsValid (create_scene_at g p id).1
unfolding create_scene_at new_scene
create_scene_at-IsValid g p none v = v
create_scene_at-IsValid g p (some id) v =
    if_elim ResultOk (not (valid_id id)) (λ _. v)
      (λ good.
        if_elim ResultOk (contains id g.scenes) (λ _. v)
          (λ _. record {
            sources = v.sources;
            scenes =
                Every-insert (SceneOk g.sources) id (new_scene id p) g.scenes
                  ((refl, valid_of_not id good), tt) v.scenes;
            outputs = v.outputs;
            transitions = v.transitions;
            active = Names-first_active g.active_scene_id id (new_scene id p) g.scenes v.active;
            preview = Names-insert g.preview_scene_id id (new_scene id p) g.scenes v.preview;
            default_transition = v.default_transition;
            shown = λ n. absurd (first_active-ne-none g.active_scene_id id n);
            runtime = v.runtime;
          }))

pub create_scene-IsValid : (g : Graph) (p : SceneCreate) → IsValid g → IsValid (create_scene g p).1
unfolding create_scene
create_scene-IsValid g p v = create_scene_at-IsValid g p p.id v

pub update_scene_name-IsValid :
    (g : Graph) (id name : Option Bytes) → IsValid g → IsValid (update_scene_name g id name).1
unfolding update_scene_name rename_found
update_scene_name-IsValid g none name v = v
update_scene_name-IsValid g (some id) none v = elim (Option-cases (lookup id g.scenes)) [
  | inl e ↦ rw (e, update_scene_name, rename_found) v
  | inr (sc, e) ↦ rw (e, update_scene_name, rename_found) v
]
update_scene_name-IsValid g (some id) (some n) v = elim (Option-cases (lookup id g.scenes)) [
  | inl e ↦ rw (e, update_scene_name, rename_found) v
  | inr (sc, e) ↦
      rw (e, update_scene_name, rename_found)
        (bump_version-IsValid (put_scene g id (record sc { name = n }))
          (put_scene-IsValid g v id sc (record sc { name = n }) e (found-SceneOk g v id sc e)))
]

-- A scene other than the one removed is still there.
Names-remove :
    (a : Option Bytes) (id : Bytes) (m : Table Scene)
    → str_eq0 a (some id) ≡ false
    → Names a m
    → Names a (remove id m)
Names-remove none id m ne h = tt
Names-remove (some a) id m ne h =
    contains-remove id a m (ground (arith, str_eq_iff a id, str_eq_iff id a)) h

Names-preview :
    (a : Option Bytes) (id : Bytes) (m : Table Scene)
    → Names a m
    → Names (if str_eq0 a (some id) then none else a) (remove id m)
Names-preview a id m h =
    if_elim (λ o. Names o (remove id m)) (str_eq0 a (some id)) (λ _. tt)
      (λ ne. Names-remove a id m ne h)

nil_of_remove : (id : Bytes) (m : Table Scene) → m ≡ [] → remove id m ≡ []
unfolding remove
nil_of_remove id [] e = refl
nil_of_remove id (x ∷ m) e = cc

pub remove_scene-IsValid :
    (g : Graph) (id : Option Bytes) → IsValid g → IsValid (remove_scene g id).1
unfolding remove_scene
remove_scene-IsValid g none v = v
remove_scene-IsValid g (some id) v =
    if_elim ResultOk (not (contains id g.scenes)) (λ _. v)
      (λ _.
        if_elim ResultOk (str_eq0 g.active_scene_id (some id)) (λ _. v)
          (λ other. record {
            sources = v.sources;
            scenes = Every-remove (SceneOk g.sources) id g.scenes v.scenes;
            outputs = v.outputs;
            transitions = v.transitions;
            active = Names-remove g.active_scene_id id g.scenes other v.active;
            preview = Names-preview g.preview_scene_id id g.scenes v.preview;
            default_transition = v.default_transition;
            shown = λ n. nil_of_remove id g.scenes (v.shown n);
            runtime = v.runtime;
          }))
