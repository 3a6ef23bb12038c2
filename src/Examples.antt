-- ===== src/Examples.antt =====
-- Concrete graphs, and the theorems at them.
pub mod Samples
mod Graphs
mod Policies
pub mod Schedules
mod Histories
mod Executors
mod Bundles
mod Inputs
mod Documents
mod Diffs
mod Failures
