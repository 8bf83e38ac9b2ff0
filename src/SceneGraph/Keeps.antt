-- ===== src/SceneGraph/Keeps.antt =====
-- The operations of scene_graph.c and the invariant of the graph.
pub mod Activation
pub mod Filters
pub mod Items
pub mod Parts
pub mod Tables
pub mod SceneItems
pub mod Sources
pub mod Scenes
