-- ===== src/SceneGraph/Order/Scenes.antt =====
-- The operations on scenes and items, one by one.
use mathlib.Core.Path.{subst, sym}
use sbs_server.Prelude.{◌≡◌, not, Option, none, some, List, if_elim, Option-cases, inl, inr}
use sbs_server.Prelude.Bytes.{Bytes, str_eq0}
use sbs_server.Table.{lookup, contains}
use sbs_server.Table.Laws.{Every-insert, Every-remove, Every-lookup, Every-map_values, Every}
use sbs_server.SceneGraph.Types.{Graph, Scene, Status, SceneCreate, Filter}
use sbs_server.SceneGraph.Externals.{IsSorted}
use sbs_server.SceneGraph.Names.{valid_id}
use sbs_server.SceneGraph.Copies.{find_item, remove_first}
use sbs_server.SceneGraph.Sources.{bump_version, remove_source, without_source}
use sbs_server.SceneGraph.Scenes.{
  new_scene, create_scene_at, put_scene, rename_found, update_scene_name, remove_scene, remove_in,
}
use sbs_server.SceneGraph.Filters.{on_scene}
use sbs_server.SceneGraph.Order.{SceneSorted, IsOrdered}
use sbs_server.SceneGraph.Order.Lists.{remove_first-IsSorted, drop_items_of-IsSorted}

abbrev pub StaysOrdered : Status × Graph → Type 0
StaysOrdered r = IsOrdered r.1

pub same_scenes : (g h : Graph) → h.scenes ≡ g.scenes → IsOrdered g → IsOrdered h
same_scenes g h e v = record { scenes = subst (Every SceneSorted) (sym e) v.scenes }

module _ (g : Graph) (v : IsOrdered g) where
  pub put_scene-IsOrdered :
      (k : Bytes) (sc : Scene) → IsSorted sc.items → IsOrdered (bump_version (put_scene g k sc))
  put_scene-IsOrdered k sc h = record { scenes = Every-insert SceneSorted k sc g.scenes h v.scenes }

  pub found-IsSorted : (k : Bytes) (sc : Scene) → lookup k g.scenes ≡ some sc → IsSorted sc.items
  found-IsSorted k sc e = Every-lookup SceneSorted k sc g.scenes e v.scenes

  pub remove_source-IsOrdered : (id : Option Bytes) → IsOrdered (remove_source g id).1
  unfolding remove_source
  remove_source-IsOrdered none = v
  remove_source-IsOrdered (some id) =
      if_elim StaysOrdered (contains id g.sources)
        (λ _. record {
          scenes =
              Every-map_values SceneSorted (without_source id) SceneSorted g.scenes
                (λ k sc h. drop_items_of-IsSorted id sc.items h) v.scenes;
        })
        (λ _. v)

  pub create_scene_at-IsOrdered :
      (p : SceneCreate) (id : Option Bytes) → IsOrdered (create_scene_at g p id).1
  unfolding create_scene_at new_scene
  create_scene_at-IsOrdered p none = v
  create_scene_at-IsOrdered p (some id) =
      if_elim StaysOrdered (not (valid_id id)) (λ _. v)
        (λ _.
          if_elim StaysOrdered (contains id g.scenes) (λ _. v)
            (λ _. record {
              scenes = Every-insert SceneSorted id (new_scene id p) g.scenes tt v.scenes;
            }))

  pub update_scene_name-IsOrdered :
      (id name : Option Bytes) → IsOrdered (update_scene_name g id name).1
  unfolding update_scene_name rename_found
  update_scene_name-IsOrdered none name = v
  update_scene_name-IsOrdered (some id) none = elim (Option-cases (lookup id g.scenes)) [
    | inl e ↦ rw (e, update_scene_name, rename_found) v
    | inr (sc, e) ↦ rw (e, update_scene_name, rename_found) v
  ]
  update_scene_name-IsOrdered (some id) (some n) = elim (Option-cases (lookup id g.scenes)) [
    | inl e ↦ rw (e, update_scene_name, rename_found) v
    | inr (sc, e) ↦
        rw (e, update_scene_name, rename_found)
          (put_scene-IsOrdered id (record sc { name = n }) (found-IsSorted id sc e))
  ]

  pub remove_scene-IsOrdered : (id : Option Bytes) → IsOrdered (remove_scene g id).1
  unfolding remove_scene
  remove_scene-IsOrdered none = v
  remove_scene-IsOrdered (some id) =
      if_elim StaysOrdered (not (contains id g.scenes)) (λ _. v)
        (λ _.
          if_elim StaysOrdered (str_eq0 g.active_scene_id (some id)) (λ _. v)
            (λ _. record { scenes = Every-remove SceneSorted id g.scenes v.scenes }))

  pub on_scene-IsOrdered :
      (id : Bytes) (r : Status) (change : List Filter → Option (List Filter))
      → IsOrdered (on_scene g id r change).1
  on_scene-IsOrdered id r change = elim (Option-cases (lookup id g.scenes)) [
    | inl e ↦ rw (e, on_scene) v
    | inr (s, e) ↦ elim (Option-cases (change s.filters)) [
      | inl f ↦ rw (e, f, on_scene) v
      | inr (fs, f) ↦
          rw (e, f, on_scene)
            (put_scene-IsOrdered id (record s { filters = fs }) (found-IsSorted id s e))
    ]
  ]

  pub remove_in-IsOrdered : (k id : Bytes) → IsOrdered (remove_in g k id).1
  unfolding remove_in
  remove_in-IsOrdered k id = elim (Option-cases (lookup k g.scenes)) [
    | inl e ↦ rw (e, remove_in) v
    | inr (sc, e) ↦ elim (Option-cases (find_item id sc.items)) [
      | inl f ↦ rw (e, f, remove_in) v
      | inr (x, f) ↦
          rw (e, f, remove_in)
            (put_scene-IsOrdered k (record sc { items = remove_first id sc.items })
              (remove_first-IsSorted id sc.items (found-IsSorted k sc e)))
    ]
  ]
