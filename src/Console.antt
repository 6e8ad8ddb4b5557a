-- ===== src/Console.antt =====
-- src/py/pyodide/console.py: the interactive console.
pub mod Shorten
pub mod Buffer
pub mod Completion
pub mod Streams
pub mod Compile
mod Tests
