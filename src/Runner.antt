-- ===== src/Runner.antt =====
-- src/py/_pyodide/_base.py: running Python source.
pub mod Quiet
pub mod Transform
pub mod Interpreter
pub mod Code
pub mod Run
pub mod Imports
mod Tests
