-- ===== src/Buildall/Tests.antt =====
-- Runs of the graph code on a few recipes, and the theorems at inputs that meet their conditions.
pub mod Samples
mod Graphs
mod Builds
mod Locks
