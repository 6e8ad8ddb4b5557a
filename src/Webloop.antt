-- ===== src/Webloop.antt =====
-- src/py/pyodide/webloop.py: futures with the methods of JavaScript's promises, and the event loop that
-- leaves scheduling to the browser.
pub mod Raised
pub mod Futures
pub mod Loop
pub mod Handlers
mod Tests
