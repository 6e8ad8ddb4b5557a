-- ===== src/Runner/Run.antt =====
-- Running compiled code: `CodeRunner.run` and `run_async`, `eval_code` and `eval_code_async`.
pub mod Laws
use pyodide.Base.{
  ℕ, Text, codes, Bool, true, false, ◌&&◌, List, [], ◌∷◌, Option, none, some, elem, nat_eq, text_eq,
  if◌then◌else◌, Result, ok, err, Exception,
}
use pyodide.Base.Dict.{Dict, put}
use pyodide.Base.Strings.Methods.{starts_with, ends_with}
use pyodide.Runner.Interpreter.{Interpreter, eval_block, caught}
use pyodide.Runner.Code.{
  allow_top_level_await, co_coroutine, Options, Code, Compiler, CodeAttribute, missing, is_none,
  code, CodeRunner, compiled_runner,
}

-- `linecache.cache`, and the state of the interpreter.
pub record World (S : Type 0) : Type 0 where
  pub linecache : Dict Text Text
  pub interpreter : S

abbrev pub has_no_file : Text → Bool
has_no_file filename = starts_with filename (codes "<") && ends_with filename (codes ">")

unfoldable pub set_linecache : Text → Text → Dict Text Text → Dict Text Text
unfolding codes starts_with ends_with put
set_linecache filename source cache =
    if has_no_file filename then cache else put filename source cache

module _ {X O V S : Type 0} where
  -- The common part: what is done with the code and the scopes is given.
  abbrev pub with_code :
      CodeRunner X O
      → (Code X O → World S → Result (Option V) × World S)
      → World S
      → Result (Option V) × World S
  with_code runner evaluate w = elim runner.compiled [
    | false ↦ (err (Exception.runtime_error (codes "Not yet compiled")), w)
    | true ↦ elim runner.code_attribute [
      | missing ↦ (err (Exception.attribute_error (codes "code")), w)
      | is_none ↦ (ok none, w)
      | code c ↦
          evaluate c
            (record w { linecache = set_linecache c.co_filename runner.source w.linecache })
    ]
  ]

  abbrev pub and_run :
      Result (CodeRunner X O)
      → (CodeRunner X O → World S → Result (Option V) × World S)
      → World S
      → Result (Option V) × World S
  and_run (ok runner) f w = f runner w
  and_run (err x) f w = (err x, w)

-- `G` stands for a dictionary of variables, and `new_dict` for a new one.
module _ {X O V G S : Type 0} (python : Interpreter X O V (G × G) S) (new_dict : G) where
  abbrev pub scopes : Option G → Option G → G × G
  scopes none none = (new_dict, new_dict)
  scopes none (some locals) = (new_dict, locals)
  scopes (some globals) none = (globals, globals)
  scopes (some globals) (some locals) = (globals, locals)

  -- eval(self.code, globals, locals), or awaiting the coroutine that this returns
  abbrev pub eval_with : Code X O → G × G → World S → Result (Option V) × World S
  eval_with c r w =
      let (raised, s) = eval_block python c.statements r w.interpreter in
      (caught raised, record w { interpreter = s })

  unfoldable pub run : CodeRunner X O → Option G → Option G → World S → Result (Option V) × World S
  unfolding codes set_linecache eval_block elem
  run runner globals locals = with_code runner (λ c w.
      if elem co_coroutine c.co_flags
      then (
        err (
            Exception.runtime_error
              (codes "Used eval_code with TOP_LEVEL_AWAIT. Use run_async for this instead.")),
        w,
      )
      else eval_with c (scopes globals locals) w)

  unfoldable pub run_async :
      CodeRunner X O → Option G → Option G → World S → Result (Option V) × World S
  unfolding codes set_linecache eval_block
  run_async runner globals locals = with_code runner (λ c w. eval_with c (scopes globals locals) w)

  unfoldable pub eval_code :
      Compiler X O → Text → Option G → Option G → Options → World S → Result (Option V) × World S
  unfolding codes compiled_runner run
  eval_code compiler source globals locals options =
      and_run (compiled_runner compiler source (record options { mode = codes "exec" }))
        (λ runner. run runner globals locals)

  -- flags or ast.PyCF_ALLOW_TOP_LEVEL_AWAIT
  abbrev pub or_top_level_await : List ℕ → List ℕ
  or_top_level_await [] = allow_top_level_await ∷ []
  or_top_level_await (flag ∷ flags) = flag ∷ flags

  unfoldable pub eval_code_async :
      Compiler X O → Text → Option G → Option G → Options → World S → Result (Option V) × World S
  unfolding codes compiled_runner run_async
  eval_code_async compiler source globals locals options =
      and_run
        (compiled_runner compiler source
          (record options { mode = codes "exec"; flags = or_top_level_await options.flags }))
        (λ runner. run_async runner globals locals)
