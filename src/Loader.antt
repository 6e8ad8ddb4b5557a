-- ===== src/Loader.antt =====
-- src/py/pyodide/_package_loader.py: unpacking packages, and where they came from.
pub mod Wheels
pub mod Sources
pub mod Dynlibs
pub mod Unpack
mod Tests
