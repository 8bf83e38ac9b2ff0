-- ===== src/SceneGraph/Tests.antt =====
-- Concrete graphs and calls.
use sbs_server.Prelude.{◌≡◌, refl, true, false, Option, none, some, List, [], ◌∷◌}
use sbs_server.Prelude.Bytes.{Bytes, codes, str_eq, strcmp}
use sbs_server.Prelude.Int.{ℤ, pos, negsuc, compare_ℤ, to_int32}
use sbs_server.Table.{lookup, insert}
use sbs_server.SceneGraph.Types.{
  Graph, Status, ok, not_found, SourceCreate, Source, Scene, Item, ItemCreate, Transform,
  double_zero, double_one, videotestsrc,
}
use sbs_server.SceneGraph.Names.{valid_id}
use sbs_server.SceneGraph.Externals.{item_compare}
use sbs_server.SceneGraph.Copies.{find_item, update_first, new_binding}
use sbs_server.SceneGraph.Insertion.{plain, insertion_sort, insert_sorted}
use sbs_server.SceneGraph.Sources.{new_source, remove_source, count_source_refs}
use sbs_server.SceneGraph.Scenes.{
  new_item, add_item, add_to, add_found, remove_scene, get_item, assign_order, reordered,
  reorder_in, reorder_items,
}
use sbs_server.SceneGraph.Transitions.{
  empty_graph, new_transition, fade_params, new_default, set_active_scene,
}
use sbs_server.SceneGraph.Calls.{
  Call, source_create, scene_create, item_add, source_remove, scene_remove, perform, run,
}
use sbs_server.SceneGraph.Invariant.{IsValid}
use sbs_server.SceneGraph.Order.{IsOrdered}
use sbs_server.SceneGraph.History.{history-IsValid}
use sbs_server.SceneGraph.Atomic.Calls.{failure_keeps, success_counts}
use sbs_server.SceneGraph.Order.Calls.{perform-IsOrdered}
use sbs_server.SceneGraph.Removal.{remove_source-refs}
use sbs_server.SceneGraph.Lookup.{get_item-add_item}
use sbs_server.SceneGraph.Activation.{Shows, chosen, set_active_scene-Shows}

abbrev cam : SourceCreate
cam = record {
  id = some (codes "cam");
  name = none;
  kind = videotestsrc;
  enabled = true;
  keep_alive = false;
  config = none;
}

abbrev straight : Transform
straight = record {
  position_x = pos 0;
  position_y = pos 0;
  width = pos 640;
  height = pos 480;
  crop_top = pos 0;
  crop_bottom = pos 0;
  crop_left = pos 0;
  crop_right = pos 0;
  rotation_deg = double_zero;
  flip_horizontal = false;
  flip_vertical = false;
  bounds_type = none;
  alignment = none;
  opacity = double_one;
}

abbrev on_top : ItemCreate
on_top = record {
  id = some (codes "top");
  source_id = some (codes "cam");
  visible = true;
  locked = false;
  z_order = pos 9;
  transform = straight;
  audio = none;
}

abbrev behind : ItemCreate
behind = record on_top { id = some (codes "back"); z_order = negsuc 0 }

abbrev the_source : Source
the_source = new_source (codes "cam") cam

abbrev drawn : Bytes → ℤ → Item
drawn id z = record {
  id = id;
  source_id = codes "cam";
  visible = true;
  locked = false;
  z_order = z;
  transform = straight;
  audio = new_binding;
  filters = [];
}

abbrev main_scene : Scene
main_scene = record {
  id = codes "main";
  name = codes "main";
  items = drawn (codes "a") (pos 1) ∷ drawn (codes "b") (pos 2) ∷ [];
  filters = [];
}

-- A source, two items of it in the one scene, which is active and in preview.
abbrev two_items : Graph
two_items = record empty_graph {
  sources = (codes "cam", the_source) ∷ [];
  scenes = (codes "main", main_scene) ∷ [];
  transitions = (codes "trans-fade", new_transition (codes "trans-fade") fade_params) ∷ [];
  active_scene_id = some (codes "main");
  preview_scene_id = some (codes "main");
  default_transition_id = some (codes "trans-fade");
}

two_items-IsValid : IsValid two_items
unfolding new_source new_transition lookup str_eq valid_id
two_items-IsValid = record {
  sources = ((refl, refl), tt);
  scenes = (((refl, refl), (refl, (refl, tt))), tt);
  outputs = tt;
  transitions = ((refl, refl), tt);
  active = refl;
  preview = refl;
  default_transition = refl;
  shown = λ e. cc;
  runtime = λ e. cc;
}

two_items-IsOrdered : IsOrdered two_items
unfolding item_compare compare_ℤ
two_items-IsOrdered = record { scenes = ((((λ e. cc), tt), (tt, tt)), tt) }

-- A reorder that names an item that is not there fails, but the item named before it has its new
-- z-order, and the array is no longer in order.
abbrev stopped : Status × Graph
stopped =
    reorder_items plain two_items (some (codes "main"))
      (some (some (codes "b") ∷ some (codes "x") ∷ []))

reorder_stops :
    (stopped.0 ≡ not_found)
    × (lookup (codes "main") stopped.1.scenes
        ≡ some (record main_scene {
          items = drawn (codes "a") (pos 1) ∷ drawn (codes "b") (pos 0) ∷ [];
        }))
unfolding reorder_items reorder_in reordered assign_order lookup insert find_item update_first
    str_eq to_int32
reorder_stops = (refl, refl)

-- Two items without an id get the same one.
abbrev nameless : ItemCreate
nameless = record on_top { id = none }

abbrev ids_of : List Item → List Bytes
ids_of [] = []
ids_of (x ∷ xs) = x.id ∷ ids_of xs

abbrev ids_in : Option Scene → List Bytes
ids_in none = []
ids_in (some sc) = ids_of sc.items

ids_repeat :
    let twice =
      item_add (some (codes "main")) nameless ∷ item_add (some (codes "main")) nameless ∷ [] in
    ids_in (lookup (codes "main") (run plain twice two_items).scenes)
    ≡ codes "a" ∷ codes "b" ∷ codes "item-auto" ∷ codes "item-auto" ∷ []
unfolding run perform add_item add_to add_found new_item lookup insert str_eq find_item
    insertion_sort insert_sorted item_compare compare_ℤ strcmp
ids_repeat = refl

abbrev calls : List Call
calls =
    source_create cam
    ∷ scene_create (record { id = some (codes "main"); name = none })
    ∷ item_add (some (codes "main")) on_top
    ∷ item_add (some (codes "main")) behind
    ∷ scene_remove (some (codes "main"))
    ∷ source_remove (some (codes "cam"))
    ∷ []

history-IsValid_example : IsValid (run plain calls new_default)
history-IsValid_example = history-IsValid plain calls

failure_keeps_example : (perform plain (scene_remove (some (codes "main"))) two_items).1 ≡ two_items
unfolding perform remove_scene lookup str_eq
failure_keeps_example =
    failure_keeps plain (scene_remove (some (codes "main"))) two_items refl (λ e. cc)

success_counts_example :
    (perform plain (source_remove (some (codes "cam"))) two_items).1.version ≡ 1
unfolding perform remove_source lookup str_eq
success_counts_example =
    success_counts plain (source_remove (some (codes "cam"))) two_items refl refl

perform-IsOrdered_example :
    IsOrdered (perform plain (item_add (some (codes "main")) on_top) two_items).1
unfolding perform add_item add_to add_found lookup str_eq find_item
perform-IsOrdered_example =
    perform-IsOrdered plain two_items two_items-IsOrdered (item_add (some (codes "main")) on_top)
      refl

remove_source-refs_example :
    ((remove_source two_items (some (codes "cam"))).0 ≡ ok)
    × (count_source_refs (remove_source two_items (some (codes "cam"))).1 (some (codes "cam")) ≡ 0)
    × (lookup (codes "cam") (remove_source two_items (some (codes "cam"))).1.sources ≡ none)
unfolding lookup str_eq
remove_source-refs_example = remove_source-refs two_items (codes "cam") (codes "cam") refl

get_item-add_item_example :
    ((add_item plain two_items (some (codes "main")) on_top).0 ≡ ok)
    × (get_item
          (add_item plain two_items (some (codes "main")) on_top).1
          (codes "main")
          (codes "top")
        ≡ some (new_item plain on_top the_source (codes "cam")))
unfolding lookup str_eq find_item
get_item-add_item_example =
    get_item-add_item plain two_items (codes "main") (codes "cam") (codes "top") main_scene
      the_source on_top refl refl refl refl refl

set_active_scene-Shows_example :
    ((set_active_scene two_items (some (codes "main")) none (pos 5)).0 ≡ ok)
    × Shows two_items
        (codes "main")
        (chosen two_items none)
        (set_active_scene two_items (some (codes "main")) none (pos 5)).1
unfolding lookup str_eq
set_active_scene-Shows_example =
    set_active_scene-Shows two_items (codes "main") none (pos 5) two_items-IsValid refl tt
