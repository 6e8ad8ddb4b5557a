-- ===== src/Buildall/Graph.antt =====
-- `generate_dependency_graph` and `_validate_package_map` of buildall.py. The order in which Python
-- pops the elements of a set is a parameter, and so is graphlib's `TopologicalSorter`.
pub mod Interfaces
pub mod Collect
pub mod Disable
pub mod Select
pub mod Validate
pub mod Generate
