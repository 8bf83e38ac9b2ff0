-- ===== src/SceneGraph/Sources.antt =====
-- The operations on sources. The pointers to the graph and to parameters are never NULL; an id may
-- be. A source given back through a pointer is the table's entry under its id.
use sbs_server.Prelude.{ℕ, ◌+◌, true, false, not, Option, none, some, List, [], ◌∷◌, if◌then◌else◌}
use sbs_server.Prelude.Bytes.{Bytes, codes, str_eq}
use sbs_server.Prelude.Words.{add64}
use sbs_server.Table.{Table, lookup, contains, insert, remove, map_values}
use sbs_server.FrameSlot.Frames.{fresh_slot}
use sbs_server.SceneGraph.Types.{
  Status, ok, inval, not_found, Graph, Source, SourceCreate, SourceUpdate, Scene, Item,
}
use sbs_server.SceneGraph.Names.{valid_id}
use sbs_server.SceneGraph.Copies.{or_default, str_map_copy, new_binding}

-- `graph_bump_version`
abbrev pub bump_version : Graph → Graph
bump_version g = record g { version = add64 g.version 1 }

-- The callback `sbs_frame_fds_release`, as a handle.
abbrev pub frame_fds_release : ℕ
frame_fds_release = 1

-- The source that `create_source` fills in, over zeroed memory.
unfoldable pub new_source : Bytes → SourceCreate → Source
new_source id p = record {
  id = id;
  name = or_default p.name id;
  kind = p.kind;
  enabled = p.enabled;
  keep_alive = p.keep_alive;
  config = str_map_copy p.config;
  filters = [];
  audio = new_binding;
  frame_slot = fresh_slot frame_fds_release;
  slot_initialized = true;
  frame_width = 0;
  frame_height = 0;
  color_depth = 0;
  hdr = false;
  color_space = [];
  hdr_eotf = [];
  drm_format = 0;
  drm_modifier = 0;
  plane_offset = 0 ∷ 0 ∷ [];
  plane_stride = 0 ∷ 0 ∷ [];
  running = false;
  muted = false;
  runtime_state = codes "created";
  v4l2_effective_decode_mode = none;
  error_message = none;
}

unfoldable pub create_source_at : Graph → SourceCreate → Option Bytes → Status × Graph
create_source_at g p none = (inval, g)
create_source_at g p (some id) =
    if not (valid_id id)
    then (inval, g)
    else if contains id g.sources
    then (inval, g)
    else (ok, bump_version (record g { sources = insert id (new_source id p) g.sources }))

-- `sbs_scene_graph_create_source`
unfoldable pub create_source : Graph → SourceCreate → Status × Graph
unfolding create_source_at
create_source g p = create_source_at g p p.id

-- The assignments of `update_source`.
unfoldable pub updated_source : Source → SourceUpdate → Source
updated_source s p =
    let named : Source = record s {
      name = if p.set_name then or_default p.name s.name else s.name;
    } in
    let enabled : Source = record named {
      enabled = if p.set_enabled then p.enabled else s.enabled;
    } in
    let kept : Source = record enabled {
      keep_alive = if p.set_keep_alive then p.keep_alive else s.keep_alive;
    } in
    record kept {
      config =
          if p.set_config
          then elim p.config [ none ↦ s.config | some c ↦ str_map_copy (some c) ]
          else s.config;
    }

-- `sbs_scene_graph_update_source`
unfoldable pub update_source : Graph → Option Bytes → SourceUpdate → Status × Graph
update_source g none p = (inval, g)
update_source g (some id) p = elim (lookup id g.sources) [
  | none ↦ (not_found, g)
  | some s ↦ (ok, bump_version (record g { sources = insert id (updated_source s p) g.sources }))
]

-- The inner loop of `remove_source`: no item of the source stays.
unfoldable pub drop_items_of : Bytes → List Item → List Item
drop_items_of id [] = []
drop_items_of id (x ∷ xs) =
    let rest = drop_items_of id xs in if str_eq x.source_id id then rest else x ∷ rest

abbrev pub without_source : Bytes → Scene → Scene
without_source id sc = record sc { items = drop_items_of id sc.items }

-- `sbs_scene_graph_remove_source`; the source is not freed here.
unfoldable pub remove_source : Graph → Option Bytes → Status × Graph
remove_source g none = (inval, g)
remove_source g (some id) =
    if contains id g.sources
    then (
      ok,
      bump_version (record g {
        scenes = map_values (without_source id) g.scenes;
        sources = remove id g.sources;
      }),
    )
    else (not_found, g)

-- `sbs_scene_graph_steal_source`: the items stay.
unfoldable pub steal_source : Graph → Option Bytes → Option Source × Graph
steal_source g none = (none, g)
steal_source g (some id) = elim (lookup id g.sources) [
  | none ↦ (none, g)
  | some s ↦ (some s, record g { sources = remove id g.sources })
]

-- The inner loop of `count_source_refs`.
unfoldable pub count_refs : Bytes → List Item → ℕ
count_refs id [] = 0
count_refs id (x ∷ xs) = (if str_eq x.source_id id then 1 else 0) + count_refs id xs

unfoldable pub count_scene_refs : Bytes → Table Scene → ℕ
unfolding count_refs
count_scene_refs id [] = 0
count_scene_refs id ((k, sc) ∷ m) = count_refs id sc.items + count_scene_refs id m

-- `sbs_scene_graph_count_source_refs`
unfoldable pub count_source_refs : Graph → Option Bytes → ℕ
unfolding count_scene_refs
count_source_refs g none = 0
count_source_refs g (some id) = count_scene_refs id g.scenes
