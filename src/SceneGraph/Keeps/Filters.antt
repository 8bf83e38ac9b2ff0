-- ===== src/SceneGraph/Keeps/Filters.antt =====
-- The invariant and the operations on filters.
use sbs_server.Prelude.{Option, none, some, List, Option-cases, inl, inr}
use sbs_server.Prelude.Bytes.{Bytes}
use sbs_server.Table.{lookup}
use sbs_server.SceneGraph.Types.{
  Graph, Filter, FilterCreate, FilterUpdate, Status, inval, not_found,
}
use sbs_server.SceneGraph.Externals.{Externals}
use sbs_server.SceneGraph.Scenes.{put_scene}
use sbs_server.SceneGraph.Filters.{
  put_source, on_source, on_scene, added_filter, update_found, remove_found, add_filter,
  add_scene_filter, update_filter, update_scene_filter, remove_filter, remove_scene_filter,
}
use sbs_server.SceneGraph.Invariant.{IsValid}
use sbs_server.SceneGraph.Keeps.Parts.{
  bump_version-IsValid, put_source-IsValid, put_scene-IsValid, found-SourceOk, found-SceneOk,
}

module _ (g : Graph) (v : IsValid g) (id : Bytes) (refused : Status)
    (change : List Filter → Option (List Filter)) where
  pub on_source-IsValid : IsValid (on_source g id refused change).1
  on_source-IsValid = elim (Option-cases (lookup id g.sources)) [
    | inl e ↦ rw (e, on_source) v
    | inr (s, e) ↦ elim (Option-cases (change s.filters)) [
      | inl f ↦ rw (e, f, on_source) v
      | inr (fs, f) ↦
          rw (e, f, on_source)
            (bump_version-IsValid (put_source g id (record s { filters = fs }))
              (put_source-IsValid g v id (record s { filters = fs }) (found-SourceOk g v id s e)))
    ]
  ]

  pub on_scene-IsValid : IsValid (on_scene g id refused change).1
  on_scene-IsValid = elim (Option-cases (lookup id g.scenes)) [
    | inl e ↦ rw (e, on_scene) v
    | inr (s, e) ↦ elim (Option-cases (change s.filters)) [
      | inl f ↦ rw (e, f, on_scene) v
      | inr (fs, f) ↦
          rw (e, f, on_scene)
            (bump_version-IsValid (put_scene g id (record s { filters = fs }))
              (put_scene-IsValid g v id s (record s { filters = fs }) e (found-SceneOk g v id s e)))
    ]
  ]

module _ (X : Externals) (g : Graph) (v : IsValid g) where
  pub add_filter-IsValid : (id : Option Bytes) (p : FilterCreate) → IsValid (add_filter X g id p).1
  unfolding add_filter
  add_filter-IsValid none p = v
  add_filter-IsValid (some id) p = elim (Option-cases p.type) [
    | inl e ↦ rw (e, add_filter) v
    | inr (t, e) ↦ rw (e, add_filter) (on_source-IsValid g v id inval (added_filter X p t))
  ]

  pub add_scene_filter-IsValid :
      (id : Option Bytes) (p : FilterCreate) → IsValid (add_scene_filter X g id p).1
  unfolding add_scene_filter
  add_scene_filter-IsValid none p = v
  add_scene_filter-IsValid (some id) p = elim (Option-cases p.type) [
    | inl e ↦ rw (e, add_scene_filter) v
    | inr (t, e) ↦ rw (e, add_scene_filter) (on_scene-IsValid g v id inval (added_filter X p t))
  ]

  pub update_filter-IsValid :
      (id f : Option Bytes) (p : FilterUpdate) → IsValid (update_filter X g id f p).1
  unfolding update_filter
  update_filter-IsValid none f p = v
  update_filter-IsValid (some id) none p = v
  update_filter-IsValid (some id) (some f) p =
      on_source-IsValid g v id not_found (update_found X f p)

  pub update_scene_filter-IsValid :
      (id f : Option Bytes) (p : FilterUpdate) → IsValid (update_scene_filter X g id f p).1
  unfolding update_scene_filter
  update_scene_filter-IsValid none f p = v
  update_scene_filter-IsValid (some id) none p = v
  update_scene_filter-IsValid (some id) (some f) p =
      on_scene-IsValid g v id not_found (update_found X f p)

module _ (g : Graph) (v : IsValid g) where
  pub remove_filter-IsValid : (id f : Option Bytes) → IsValid (remove_filter g id f).1
  unfolding remove_filter
  remove_filter-IsValid none f = v
  remove_filter-IsValid (some id) none = v
  remove_filter-IsValid (some id) (some f) = on_source-IsValid g v id not_found (remove_found f)

  pub remove_scene_filter-IsValid : (id f : Option Bytes) → IsValid (remove_scene_filter g id f).1
  unfolding remove_scene_filter
  remove_scene_filter-IsValid none f = v
  remove_scene_filter-IsValid (some id) none = v
  remove_scene_filter-IsValid (some id) (some f) =
      on_scene-IsValid g v id not_found (remove_found f)
