-- ===== src/SceneGraph/Removal.antt =====
-- What `sbs_scene_graph_remove_source` and `sbs_scene_graph_count_source_refs` say of each other.
use sbs_server.Prelude.{◌≡◌, refl, true, none, some, List, [], ◌∷◌, arith, if◌then◌else◌}
use sbs_server.Prelude.Bytes.{Bytes, str_eq, str_eq_iff}
use sbs_server.Table.{Table, lookup, contains, map_values}
use sbs_server.Table.Laws.{lookup-remove}
use sbs_server.SceneGraph.Types.{Graph, Scene, Item, ok}
use sbs_server.SceneGraph.Sources.{
  drop_items_of, without_source, remove_source, count_refs, count_scene_refs, count_source_refs,
}

refs-drop_items_of :
    (id j : Bytes) (xs : List Item)
    → count_refs j (drop_items_of id xs) ≡ (if str_eq id j then 0 else count_refs j xs)
unfolding count_refs drop_items_of
refs-drop_items_of id j [] = ground arith
refs-drop_items_of id j (x ∷ xs) = ground (
  arith,
  refs-drop_items_of id j xs,
  str_eq_iff id j,
  str_eq_iff x.source_id id,
  str_eq_iff x.source_id j,
)

scene_refs-without_source :
    (id j : Bytes) (m : Table Scene)
    → count_scene_refs j (map_values (without_source id) m)
      ≡ (if str_eq id j then 0 else count_scene_refs j m)
unfolding count_scene_refs map_values
scene_refs-without_source id j [] = ground arith
scene_refs-without_source id j ((k, sc) ∷ m) =
    ground (arith, scene_refs-without_source id j m, refs-drop_items_of id j sc.items)

-- Removing a source that is there succeeds; then no item of any scene refers to it and it is not
-- found, while every other source is found as before with as many items as before.
pub remove_source-refs :
    (g : Graph) (id j : Bytes)
    → contains id g.sources ≡ true
    → ((remove_source g (some id)).0 ≡ ok)
      × (count_source_refs (remove_source g (some id)).1 (some j)
          ≡ (if str_eq id j then 0 else count_source_refs g (some j)))
      × (lookup j (remove_source g (some id)).1.sources
          ≡ (if str_eq id j then none else lookup j g.sources))
unfolding remove_source count_source_refs
remove_source-refs g id j there =
    rw (there, remove_source)
      (refl, scene_refs-without_source id j g.scenes, lookup-remove id j g.sources)
