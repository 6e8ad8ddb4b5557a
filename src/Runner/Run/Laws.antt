-- ===== src/Runner/Run/Laws.antt =====
-- What `eval_code` and `eval_code_async` return.
use pyodide.Base.{
  ℕ, Text, codes, ◌≡◌, refl, ap, ◌∙◌, Bool, true, false, List, Option, elem, nat_eq, Result,
}
use pyodide.Runner.Interpreter.{Interpreter}
use pyodide.Runner.Transform.{Statement}
use pyodide.Runner.Transform.Laws.{
  Answer, then_answer, no_answer, expression_value, assigned_value, block_value, run_block,
  run_block-caught, untransformed-value, last_expr_to_raise-value, last_assign_to_expr-value,
}
use pyodide.Runner.Code.{
  co_coroutine, ReturnMode, last_expr, last_expr_or_assign, returns_none, Options, Code, Compiler,
  code, transform, effective_mode,
}
use pyodide.Runner.Code.Laws.{Compiles, compiled_runner-Compiles}
use pyodide.Runner.Run.{
  World, set_linecache, scopes, eval_with, run, run_async, eval_code, eval_code_async,
  or_top_level_await,
}

module _ {X O V G S : Type 0} (compiler : Compiler X O) (python : Interpreter X O V (G × G) S)
    (new_dict : G) where
  -- The answer of the last statement, by the mode.
  abbrev pub last_of : ReturnMode → Statement X O → G × G → S → Answer python × S
  last_of returns_none st r s = then_answer python st r s (no_answer python)
  last_of last_expr st r s = expression_value python st r s
  last_of last_expr_or_assign st r s = assigned_value python st r s

  -- What running the body in the scopes returns and leaves.
  unfoldable pub evaluated :
      ReturnMode
      → List (Statement X O)
      → Text
      → Text
      → G × G
      → World S
      → Result (Option V) × World S
  evaluated mode body filename source r w =
      let (answer, s) = block_value python (last_of mode) body r w.interpreter in
      (answer, record { linecache = set_linecache filename source w.linecache; interpreter = s })

  transform-value :
      (mode : ReturnMode) (body : List (Statement X O)) (r : G × G) (s : S)
      → run_block python (transform mode body) r s ≡ block_value python (last_of mode) body r s
  unfolding transform
  transform-value returns_none body r s = untransformed-value python body r s
  transform-value last_expr body r s = last_expr_to_raise-value python body r s
  transform-value last_expr_or_assign body r s = last_assign_to_expr-value python body r s

  eval_with-value :
      (mode : ReturnMode) (body : List (Statement X O)) (filename source : Text) (co_flags : List ℕ)
      (r : G × G) (w : World S)
      → eval_with python new_dict
          (record { co_filename = filename; co_flags = co_flags; statements = transform mode body })
          r
          (record {
            linecache = set_linecache filename source w.linecache;
            interpreter = w.interpreter;
          })
        ≡ evaluated mode body filename source r w
  unfolding evaluated
  eval_with-value mode body filename source co_flags r w =
      ap
        (λ p. (
          p.0,
          record { linecache = set_linecache filename source w.linecache; interpreter = p.1 },
        ))
        (run_block-caught python (transform mode body) r w.interpreter
          ∙ transform-value mode body r w.interpreter)

  run-eval_with :
      (source : Text) (options : Options) (ast : List (Statement X O)) (c : Code X O)
      (globals locals : Option G) (w : World S)
      → elem co_coroutine c.co_flags ≡ false
      → run python new_dict
          (record {
            compiled = true;
            source = source;
            options = options;
            ast = ast;
            code_attribute = code c;
          })
          globals
          locals
          w
        ≡ eval_with python new_dict c (scopes python new_dict globals locals) (record {
          linecache = set_linecache c.co_filename source w.linecache;
          interpreter = w.interpreter;
        })
  unfolding run
  run-eval_with source options ast c globals locals w sync = rw (sync, run) refl

  -- A source that compiles and does not await is run: its statements are executed in order, in the scopes,
  -- and what is returned is the answer of the last one in the mode, or None if the source is quiet.
  pub eval_code_lem :
      (source : Text) (globals locals : Option G) (options : Options) (w : World S)
      (body : List (Statement X O)) (quiet : Bool) (co_flags : List ℕ)
      → Compiles compiler source (record options { mode = codes "exec" }) body quiet co_flags
      → elem co_coroutine co_flags ≡ false
      → eval_code python new_dict compiler source globals locals options w
        ≡ evaluated
            (effective_mode options.return_mode quiet)
            body
            options.filename
            source
            (scopes python new_dict globals locals)
            w
  unfolding eval_code run
  eval_code_lem source globals locals options w body quiet co_flags h sync =
      rw
        (compiled_runner-Compiles compiler source (record options { mode = codes "exec" }) body
          quiet co_flags h)
        (run-eval_with source (record options { mode = codes "exec" })
            (transform (effective_mode options.return_mode quiet) body)
            (record {
              co_filename = options.filename;
              co_flags = co_flags;
              statements = transform (effective_mode options.return_mode quiet) body;
            })
            globals locals w sync
          ∙ eval_with-value (effective_mode options.return_mode quiet) body options.filename source
              co_flags (scopes python new_dict globals locals) w)

  -- So it is, with the flag for await at the top level if no flags are given, if the source may await.
  pub eval_code_async_lem :
      (source : Text) (globals locals : Option G) (options : Options) (w : World S)
      (body : List (Statement X O)) (quiet : Bool) (co_flags : List ℕ)
      → Compiles compiler source
          (record options {
            mode = codes "exec";
            flags = or_top_level_await python new_dict options.flags;
          })
          body
          quiet
          co_flags
      → eval_code_async python new_dict compiler source globals locals options w
        ≡ evaluated
            (effective_mode options.return_mode quiet)
            body
            options.filename
            source
            (scopes python new_dict globals locals)
            w
  unfolding eval_code_async run_async
  eval_code_async_lem source globals locals options w body quiet co_flags h =
      rw
        (compiled_runner-Compiles compiler source
          (record options {
            mode = codes "exec";
            flags = or_top_level_await python new_dict options.flags;
          })
          body quiet co_flags h)
        (eval_with-value (effective_mode options.return_mode quiet) body options.filename source
          co_flags (scopes python new_dict globals locals) w)
