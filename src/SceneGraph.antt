-- ===== src/SceneGraph.antt =====
-- src/server/engine/scene_graph.c: the sources, scenes, outputs and transitions of a server.
pub mod Types
pub mod Names
pub mod Externals
pub mod Copies
pub mod Sources
pub mod Scenes
pub mod Filters
pub mod Transitions
pub mod Atomic
pub mod Calls
pub mod History
pub mod Order
pub mod Removal
pub mod Insertion
pub mod Lookup
pub mod Activation
mod Tests
pub mod Invariant
pub mod Keeps
