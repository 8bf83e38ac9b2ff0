-- ===== src/SceneGraph/Atomic.antt =====
-- Failed and successful calls of scene_graph.c: what each leaves of the graph and of its version.
pub mod Plain
pub mod Contents
pub mod Calls
use sbs_server.Prelude.{◌≡◌, ◌≢◌}
use sbs_server.Prelude.Words.{add64}
use sbs_server.SceneGraph.Types.{Graph, Status, ok}

abbrev pub IsCounted : Graph → Status × Graph → Type 0
IsCounted g r = r.0 ≡ ok → r.1.version ≡ add64 g.version 1

abbrev pub IsAtomic : Graph → Status × Graph → Type 0
IsAtomic g r = (r.0 ≢ ok → r.1 ≡ g) × IsCounted g r
