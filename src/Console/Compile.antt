-- ===== src/Console/Compile.antt =====
-- `_Compile`, the console's compiler: it compiles with `CodeRunner` and remembers future imports.
pub mod Laws
use pyodide.Base.{
  ℕ, Text, Bool, true, false, ◌&&◌, List, [], ◌∷◌, elem, nat_eq, if◌then◌else◌, Result, ok, err,
  ◌>>=◌, Exception,
}
use pyodide.Base.Set.{add}
use pyodide.Runner.Quiet.{Token, should_quiet}
use pyodide.Runner.Code.{
  ReturnMode, returns_none, Options, Code, Compiler, CodeAttribute, missing, is_none, code,
  CodeRunner, compiled_runner,
}

pub record Compile : Type 0 where
  pub flags : List ℕ
  pub return_mode : ReturnMode
  pub quiet_trailing_semicolon : Bool

-- A source that cannot be read as tokens is left to the parser.
abbrev pub mode_of : ReturnMode → Result Bool → Result ReturnMode
mode_of return_mode (ok quiet) = ok (if quiet then returns_none else return_mode)
mode_of return_mode (err (Exception.token_error message)) = ok return_mode
mode_of return_mode (err (Exception.syntax_error message)) = ok return_mode
mode_of return_mode (err x) = err x

unfoldable pub remember : List ℕ → List ℕ → List ℕ → List ℕ
unfolding elem add
remember [] co_flags flags = flags
remember (feature ∷ features) co_flags flags =
    remember features co_flags (if elem feature co_flags then add feature flags else flags)

module _ {X O : Type 0} (python : Compiler X O) (features : List ℕ) where
  abbrev pub co_flags_of : CodeAttribute X O → List ℕ
  co_flags_of missing = []
  co_flags_of is_none = []
  co_flags_of (code c) = c.co_flags

  abbrev pub remembering : Compile → Result (CodeRunner X O) → Result (CodeRunner X O) × Compile
  remembering self (err x) = (err x, self)
  remembering self (ok runner) = (
    ok runner,
    record self { flags = remember features (co_flags_of runner.code_attribute) self.flags },
  )

  abbrev pub return_mode_for : Compile → Text → Result ReturnMode
  return_mode_for self source = elim self.quiet_trailing_semicolon [
    | true ↦ mode_of self.return_mode (should_quiet python.generate_tokens source)
    | false ↦ ok self.return_mode
  ]

  -- The call of CodeRunner says nothing of semicolons, so that its default holds; it has the flags of
  -- `self`, not those computed from `incomplete_input`.
  abbrev pub runner_options : Compile → Text → Text → ReturnMode → Options
  runner_options self filename symbol return_mode = record {
    return_mode = return_mode;
    quiet_trailing_semicolon = true;
    mode = symbol;
    filename = filename;
    flags = self.flags;
  }

  unfoldable pub compile_call :
      Compile → Text → Text → Text → Bool → Result (CodeRunner X O) × Compile
  unfolding should_quiet compiled_runner remember
  compile_call self source filename symbol incomplete_input = remembering self (
      return_mode_for self source >>= λ return_mode.
      compiled_runner python source (runner_options self filename symbol return_mode))
