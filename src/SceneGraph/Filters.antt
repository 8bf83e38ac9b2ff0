-- ===== src/SceneGraph/Filters.antt =====
-- The filters of sources and of scenes.
use sbs_server.Prelude.{
  Bool, false, Option, none, some, List, [], ◌∷◌, ◌++◌, if◌then◌else◌, is_some,
}
use sbs_server.Prelude.Bytes.{Bytes, codes}
use sbs_server.Table.{lookup, insert}
use sbs_server.SceneGraph.Types.{
  Status, ok, inval, not_found, Graph, Source, Filter, FilterCreate, FilterUpdate,
}
use sbs_server.SceneGraph.Externals.{Externals}
use sbs_server.SceneGraph.Copies.{
  or_default, find_filter, remove_filter_at, update_filter_at, filter_params_copy,
}
use sbs_server.SceneGraph.Sources.{bump_version}
use sbs_server.SceneGraph.Scenes.{put_scene}

-- A source changed in place.
abbrev pub put_source : Graph → Bytes → Source → Graph
put_source g id s = record g { sources = insert id s g.sources }

abbrev pub taken : Option Bytes → List Filter → Bool
taken none filters = false
taken (some id) filters = is_some (find_filter id filters)

module _ (X : Externals) where
  -- What `add_filter` and `add_scene_filter` do to the array.
  unfoldable pub added_filter : FilterCreate → Bytes → List Filter → Option (List Filter)
  added_filter p type filters =
      if taken p.id filters
      then none
      else some (
          filters
          ++ record {
            id = or_default p.id (codes "filter-auto");
            type = type;
            enabled = p.enabled;
            params = filter_params_copy X type p.params;
          }
            ∷ [])

  -- What `update_filter` and `update_scene_filter` do to the filter that they find.
  unfoldable pub updated_filter : FilterUpdate → Filter → Filter
  updated_filter p f =
      let switched : Filter = record f {
        enabled = if p.set_enabled then p.enabled else f.enabled;
      } in
      record switched {
        params = elim p.params [ none ↦ f.params | some m ↦ filter_params_copy X f.type (some m) ];
      }

  unfoldable pub update_found : Bytes → FilterUpdate → List Filter → Option (List Filter)
  update_found id p filters = elim (find_filter id filters) [
    | none ↦ none
    | some _ ↦ some (update_filter_at id (updated_filter p) filters)
  ]

unfoldable pub remove_found : Bytes → List Filter → Option (List Filter)
remove_found id filters = elim (find_filter id filters) [
  | none ↦ none
  | some _ ↦ some (remove_filter_at id filters)
]

-- A change of the filters of a source, if there is the source and the change is possible.
abbrev pub on_source :
    Graph → Bytes → Status → (List Filter → Option (List Filter)) → Status × Graph
on_source g id refused change = elim (lookup id g.sources) [
  | none ↦ (not_found, g)
  | some s ↦ elim (change s.filters) [
    | none ↦ (refused, g)
    | some fs ↦ (ok, bump_version (put_source g id (record s { filters = fs })))
  ]
]

abbrev pub on_scene : Graph → Bytes → Status → (List Filter → Option (List Filter)) → Status × Graph
on_scene g id refused change = elim (lookup id g.scenes) [
  | none ↦ (not_found, g)
  | some sc ↦ elim (change sc.filters) [
    | none ↦ (refused, g)
    | some fs ↦ (ok, bump_version (put_scene g id (record sc { filters = fs })))
  ]
]

module _ (X : Externals) where
  -- `sbs_scene_graph_add_filter`
  unfoldable pub add_filter : Graph → Option Bytes → FilterCreate → Status × Graph
  add_filter g none p = (inval, g)
  add_filter g (some id) p = elim p.type [
    | none ↦ (inval, g)
    | some type ↦ on_source g id inval (added_filter X p type)
  ]

  -- `sbs_scene_graph_add_scene_filter`
  unfoldable pub add_scene_filter : Graph → Option Bytes → FilterCreate → Status × Graph
  add_scene_filter g none p = (inval, g)
  add_scene_filter g (some id) p = elim p.type [
    | none ↦ (inval, g)
    | some type ↦ on_scene g id inval (added_filter X p type)
  ]

  -- `sbs_scene_graph_update_filter`
  unfoldable pub update_filter : Graph → Option Bytes → Option Bytes → FilterUpdate → Status × Graph
  update_filter g (some id) (some filter_id) p =
      on_source g id not_found (update_found X filter_id p)
  update_filter g _ _ p = (inval, g)

  -- `sbs_scene_graph_update_scene_filter`
  unfoldable pub update_scene_filter :
      Graph → Option Bytes → Option Bytes → FilterUpdate → Status × Graph
  update_scene_filter g (some id) (some filter_id) p =
      on_scene g id not_found (update_found X filter_id p)
  update_scene_filter g _ _ p = (inval, g)

-- `sbs_scene_graph_remove_filter`
unfoldable pub remove_filter : Graph → Option Bytes → Option Bytes → Status × Graph
remove_filter g (some id) (some filter_id) = on_source g id not_found (remove_found filter_id)
remove_filter g _ _ = (inval, g)

-- `sbs_scene_graph_remove_scene_filter`
unfoldable pub remove_scene_filter : Graph → Option Bytes → Option Bytes → Status × Graph
remove_scene_filter g (some id) (some filter_id) = on_scene g id not_found (remove_found filter_id)
remove_scene_filter g _ _ = (inval, g)
