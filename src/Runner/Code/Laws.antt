-- ===== src/Runner/Code/Laws.antt =====
-- What compiling a source makes of it.
use pyodide.Base.{
  ℕ, Text, codes, ◌≡◌, Bool, true, false, List, nat_eq, Result, ok, err, Exception, arith, ◌⊎◌,
}
use pyodide.Runner.Transform.{Statement}
use pyodide.Runner.Code.{
  Options, Code, Compiler, CodeAttribute, code, CodeRunner, transform, effective_mode, is_quiet,
  parse, finish_compile, new_code_runner, compile, compiled_runner,
}

module _ {X O : Type 0} (compiler : Compiler X O) where
  -- The options are those of a source that compiles: it is parsed as the body, it is quiet or not, and what
  -- the body is transformed to compiles with the flags.
  abbrev pub Compiles : Text → Options → List (Statement X O) → Bool → List ℕ → Type 0
  Compiles source options body quiet co_flags =
      (parse compiler source options ≡ ok body)
      × (is_quiet compiler source options ≡ ok quiet)
      × (compiler.compile_module (transform (effective_mode options.return_mode quiet) body)
            options.filename options.mode options.flags
          ≡ ok co_flags)

  pub compiled_runner-Compiles :
      (source : Text) (options : Options) (body : List (Statement X O)) (quiet : Bool)
      (co_flags : List ℕ)
      → Compiles source options body quiet co_flags
      → compiled_runner compiler source options
        ≡ ok (record {
          compiled = true;
          source = source;
          options = options;
          ast = transform (effective_mode options.return_mode quiet) body;
          code_attribute = code (record {
            co_filename = options.filename;
            co_flags = co_flags;
            statements = transform (effective_mode options.return_mode quiet) body;
          });
        })
  unfolding parse compiled_runner new_code_runner compile finish_compile
  compiled_runner-Compiles source options body quiet co_flags (p, q, c) = ground (arith, p, q, c)

  abbrev pub already_compiled : Exception
  already_compiled = Exception.runtime_error (codes "Already compiled")

  -- No code object is there that was not before.
  abbrev pub Raises : CodeRunner X O → Result (Unit {0}) → CodeRunner X O → Type 0
  Raises runner first runner' =
      (x : Exception) × (first ≡ err x) × (runner'.code_attribute ≡ runner.code_attribute)

  abbrev pub Succeeds : Result (Unit {0}) → CodeRunner X O → Type 0
  Succeeds first runner' =
      (c : Code X O) × (first ≡ ok tt)
      × (runner'.code_attribute ≡ code c)
      × (c.statements ≡ runner'.ast)

  -- The module is as it was and compiling raises, or it is known if the source is quiet, and the module is
  -- transformed, whether or not it compiles.
  abbrev pub Transforms : CodeRunner X O → Result (Unit {0}) → CodeRunner X O → Type 0
  Transforms runner first runner' =
      ((runner'.ast ≡ runner.ast) × Raises runner first runner')
      ⊎ ((quiet : Bool) × (runner.compiled ≡ false)
          × (is_quiet compiler runner.source runner.options ≡ ok quiet)
          × (runner'.ast ≡ transform (effective_mode runner.options.return_mode quiet) runner.ast)
          × (Raises runner first runner' ⊎ Succeeds first runner'))

  abbrev pub IsCompiledOf : CodeRunner X O → Result (Unit {0}) × CodeRunner X O → Type 0
  IsCompiledOf runner (first, runner') =
      (compile compiler runner' ≡ (err already_compiled, runner'))
      × (runner'.source ≡ runner.source)
      × Transforms runner first runner'

  abbrev runner_of :
      Bool → Text → Options → List (Statement X O) → CodeAttribute X O → CodeRunner X O
  runner_of compiled source options ast attribute = record {
    compiled = compiled;
    source = source;
    options = options;
    ast = ast;
    code_attribute = attribute;
  }
