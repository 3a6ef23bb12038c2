-- ===== src/Graph.antt =====
-- Task graphs: src/dstudio_task_graph.c.
pub mod Types
pub mod Names
pub mod Transition
pub mod Paths
pub mod Errors
pub mod Kinds
pub mod Gates
pub mod Dependencies
pub mod Order
pub mod Validate
