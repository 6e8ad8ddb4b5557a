-- ===== src/Buildall.antt =====
-- pyodide-build/pyodide_build/buildall.py, with recipe.py and the parts of io.py that they read: from
-- the recipes to the graph of packages, and the building of that graph by several threads.
pub mod Package
pub mod Query
pub mod Recipes
pub mod Graph
pub mod Lockfile
pub mod Rebuild
pub mod Builder
mod Tests
