-- ===== src/Pywasmcross.antt =====
-- pyodide-build/pyodide_build/pywasmcross.py: the compiler wrapper, which rewrites the command lines
-- of compilers and linkers for emscripten.
pub mod Types
pub mod Arguments
pub mod Exports
pub mod Command
mod Tests
