-- ===== src/Webloop/Raised.antt =====
-- Exceptions by what the handlers of webloop.py tell apart.
use pyodide.Base.{ℕ, Bool, true, false}

pub data Raised : Type 0 where
  -- An `Exception`.
  ordinary : ℕ → Raised
  -- `BaseException`s that are no `Exception`s.
  system_exit : ℕ → Raised
  keyboard_interrupt cancelled_error : Raised

-- `except Exception`
abbrev pub is_exception : Raised → Bool
is_exception (ordinary x) = true
is_exception (system_exit code) = false
is_exception keyboard_interrupt = false
is_exception cancelled_error = false
