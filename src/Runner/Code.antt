-- ===== src/Runner/Code.antt =====
-- Compiling a source: `_parse_and_compile_gen` and `CodeRunner.compile`. Python's compiler, tokenizer and `dedent` are parameters;
-- a code object is the statements it was compiled from, with its flags.
pub mod Laws
use pyodide.Base.{
  ℕ, Text, codes, Bool, true, false, List, ◌∷◌, nat_eq, text_eq, if◌then◌else◌, Result, ok, err,
  ◌>>=◌, Exception,
}
use pyodide.Runner.Quiet.{Token, should_quiet}
use pyodide.Runner.Transform.{Statement, last_assign_to_expr, last_expr_to_raise}

-- Flags are sets of numbers of bits: PyCF_ONLY_AST, PyCF_ALLOW_TOP_LEVEL_AWAIT, and CO_COROUTINE of a
-- code object that uses await.
abbrev pub only_ast : ℕ
only_ast = 10

abbrev pub allow_top_level_await : ℕ
allow_top_level_await = 13

abbrev pub co_coroutine : ℕ
co_coroutine = 7

pub data ReturnMode : Type 0 where
  last_expr last_expr_or_assign returns_none : ReturnMode

pub record Options : Type 0 where
  pub return_mode : ReturnMode
  pub quiet_trailing_semicolon : Bool
  pub mode : Text
  pub filename : Text
  pub flags : List ℕ

pub record Code (X O : Type 0) : Type 0 where
  pub co_filename : Text
  pub co_flags : List ℕ
  pub statements : List (Statement X O)

-- `compile_source` and `compile_module` take the filename, the mode and the flags; the second returns the
-- flags of the code object.
pub record Compiler (X O : Type 0) : Type 0 where
  pub dedent : Text → Text
  pub generate_tokens : Text → Result (List Token)
  pub compile_source : Text → Text → Text → List ℕ → Result (List (Statement X O))
  pub compile_module : List (Statement X O) → Text → Text → List ℕ → Result (List ℕ)

-- The attribute `code`: not there, None, or a code object.
pub data CodeAttribute (X O : Type 0) : Type 0 where
  missing is_none : CodeAttribute X O
  code : Code X O → CodeAttribute X O

pub record CodeRunner (X O : Type 0) : Type 0 where
  pub compiled : Bool
  pub source : Text
  pub options : Options
  pub ast : List (Statement X O)
  pub code_attribute : CodeAttribute X O

abbrev pub effective_mode : ReturnMode → Bool → ReturnMode
effective_mode return_mode quiet = if quiet then returns_none else return_mode

module _ {X O : Type 0} where
  unfoldable pub transform : ReturnMode → List (Statement X O) → List (Statement X O)
  unfolding last_assign_to_expr last_expr_to_raise
  transform returns_none body = body
  transform last_expr body = last_expr_to_raise body
  transform last_expr_or_assign body = last_expr_to_raise (last_assign_to_expr body)

  module _ (python : Compiler X O) where
    -- The first half of `_parse_and_compile_gen`, to its `yield`.
    unfoldable pub parse : Text → Options → Result (List (Statement X O))
    parse source options =
        python.compile_source (python.dedent source) options.filename options.mode
          (only_ast ∷ options.flags)

    abbrev pub is_quiet : Text → Options → Result Bool
    is_quiet source options = elim options.quiet_trailing_semicolon [
      | true ↦ should_quiet python.generate_tokens (python.dedent source)
      | false ↦ ok false
    ]

    abbrev pub finish :
        Options → List (Statement X O) → Result Bool → Result (Code X O) × List (Statement X O)
    finish options body (ok quiet) =
        let body' = transform (effective_mode options.return_mode quiet) body in
        (
          python.compile_module body' options.filename options.mode options.flags >>= λ co_flags.
              ok (record {
                co_filename = options.filename;
                co_flags = co_flags;
                statements = body';
              }),
          body',
        )
    finish options body (err x) = (err x, body)

    -- The second half, with the module that is sent, and that module as it is left: it is transformed in place.
    unfoldable pub finish_compile :
        Text → Options → List (Statement X O) → Result (Code X O) × List (Statement X O)
    unfolding transform
    finish_compile source options body = finish options body (is_quiet source options)

    unfoldable pub new_code_runner : Text → Options → Result (CodeRunner X O)
    unfolding parse
    new_code_runner source options = parse source options >>= λ ast. ok (record {
      compiled = false;
      source = source;
      options = options;
      ast = ast;
      code_attribute = missing;
    })

    abbrev pub set_code :
        CodeRunner X O
        → Result (Code X O) × List (Statement X O)
        → Result (Unit {0}) × CodeRunner X O
    set_code runner (ok c, ast) = (ok tt, record runner { ast = ast; code_attribute = code c })
    set_code runner (err x, ast) = (err x, record runner { ast = ast })

    -- The module that is sent is `ast` itself.
    unfoldable pub compile : CodeRunner X O → Result (Unit {0}) × CodeRunner X O
    unfolding codes finish_compile
    compile runner = elim runner.compiled [
      | true ↦ (err (Exception.runtime_error (codes "Already compiled")), runner)
      | false ↦
          set_code (record runner { compiled = true })
            (finish_compile runner.source runner.options runner.ast)
    ]

    -- CodeRunner(...).compile()
    unfoldable pub compiled_runner : Text → Options → Result (CodeRunner X O)
    unfolding new_code_runner compile
    compiled_runner source options = new_code_runner source options >>= λ runner.
        let (compiled, runner') = compile runner in compiled >>= λ _. ok runner'
