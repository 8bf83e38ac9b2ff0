-- ===== src/SceneGraph/Order.antt =====
-- The order in which the items of a scene are drawn, which scene_graph.c keeps by sorting.
pub mod Lists
pub mod Unchanged
pub mod Scenes
pub mod Contents
pub mod Calls
use sbs_server.Table.Laws.{Every}
use sbs_server.SceneGraph.Types.{Graph, Scene}
use sbs_server.SceneGraph.Externals.{IsSorted}
use sbs_server.Prelude.Bytes.{Bytes}

abbrev pub SceneSorted : Bytes → Scene → Type 0
SceneSorted k sc = IsSorted sc.items

pub record IsOrdered (g : Graph) : Type 0 where
  pub scenes : Every SceneSorted g.scenes
