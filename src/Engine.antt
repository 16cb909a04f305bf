-- ===== src/Engine.antt =====
-- engine/portal/engine: the entities of a scene, and the resources that jobs load.
pub mod Hierarchy
pub mod Resources
pub mod Descriptors
pub mod Selection
