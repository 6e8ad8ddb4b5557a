-- ===== src/Console/Compile/Laws.antt =====
-- What the console's compiler remembers, and what becomes of a trailing semicolon.
use pyodide.Base.{
  ℕ, Text, ◌≡◌, refl, ap, sym, ◌∙◌, Bool, true, false, ◌&&◌, ◌||◌, List, [], ◌∷◌, elem, elem-nil,
  nat_eq, Result, ok, err, ◌>>=◌, arith, subst, bind-ok_inv,
}
use pyodide.Base.Set.{add, elem-add}
use pyodide.Runner.Quiet.{should_quiet}
use pyodide.Runner.Transform.{Statement}
use pyodide.Runner.Code.{
  ReturnMode, Options, Code, Compiler, missing, only_ast, code, CodeRunner, compiled_runner,
  transform, parse, finish_compile, new_code_runner, compile, set_code, is_quiet,
}
use pyodide.Console.Compile.{
  Compile, remember, co_flags_of, remembering, return_mode_for, runner_options, compile_call,
}

elem-remember :
    (f : ℕ) (features co_flags flags : List ℕ)
    → elem f (remember features co_flags flags)
      ≡ (elem f flags || (elem f features && elem f co_flags))
unfolding remember elem
elem-remember f [] co_flags flags = ground arith
elem-remember f (feature ∷ features) co_flags flags = ground (
  arith,
  elem-remember f features co_flags flags,
  elem-remember f features co_flags (add feature flags),
  elem-add f feature flags,
)

module _ {X O : Type 0} (python : Compiler X O) (features : List ℕ) where
  -- The flags of the code object, if there is one.
  abbrev pub compiled_flags : Result (CodeRunner X O) → List ℕ
  compiled_flags (ok runner) = co_flags_of python features runner.code_attribute
  compiled_flags (err x) = []

  remembering-flags :
      (self : Compile) (f : ℕ) (r : Result (CodeRunner X O))
      → let (compiled, self') = remembering python features self r in
        elem f self'.flags
        ≡ (elem f self.flags || (elem f features && elem f (compiled_flags compiled)))
  remembering-flags self f (ok runner) =
      elem-remember f features (co_flags_of python features runner.code_attribute) self.flags
  remembering-flags self f (err x) = ground (arith, elem-nil f)

  -- Of the flags, a call of the compiler keeps all, and adds those of the features that the code object
  -- has; a call that raises adds none.
  pub compile_call-flags :
      (self : Compile) (source filename symbol : Text) (incomplete_input : Bool) (f : ℕ)
      → let (compiled, self') =
          compile_call python features self source filename symbol incomplete_input in
        elem f self'.flags
        ≡ (elem f self.flags || (elem f features && elem f (compiled_flags compiled)))
  unfolding compile_call
  compile_call-flags self source filename symbol incomplete_input f = remembering-flags self f (
      return_mode_for python features self source >>= λ return_mode.
      compiled_runner python source
        (runner_options python features self filename symbol return_mode))

  -- The runner has compiled the body as it is, and left it so.
  abbrev pub IsUntransformed : List (Statement X O) → CodeRunner X O → Type 0
  IsUntransformed body runner =
      (c : Code X O) × (runner.code_attribute ≡ code c)
      × (c.statements ≡ body)
      × (runner.ast ≡ body)

  set_code-IsUntransformed :
      (runner runner' : CodeRunner X O) (body : List (Statement X O)) (filename : Text)
      (co_flags : Result (List ℕ))
      → (let (r, runner'') = set_code python runner (
        co_flags >>= λ co_flags.
            ok (record { co_filename = filename; co_flags = co_flags; statements = body }),
        body,
      ) in
          r >>= λ _. ok runner'')
        ≡ ok runner'
      → IsUntransformed body runner'
  set_code-IsUntransformed runner runner' body filename (ok co_flags) e =
      let c : Code X O = record {
        co_filename = filename;
        co_flags = co_flags;
        statements = body;
      } in
      let same : record runner { ast = body; code_attribute = code c } ≡ runner' = cc e in
      subst (IsUntransformed body) same (c, refl, refl, refl)
  set_code-IsUntransformed runner runner' body filename (err x) e = cc

  -- A runner whose source is quiet compiles its module as it is.
  compile-quiet :
      (source : Text) (options : Options) (body : List (Statement X O))
      → options.quiet_trailing_semicolon ≡ true
      → should_quiet python.generate_tokens (python.dedent source) ≡ ok true
      → finish_compile python source options body ≡ (
        python.compile_module body options.filename options.mode options.flags >>= λ co_flags.
            ok (record { co_filename = options.filename; co_flags = co_flags; statements = body }),
        body,
      )
  unfolding finish_compile transform
  compile-quiet source options body q t =
      let quiet : is_quiet python source options ≡ ok true = rw q t in rw quiet refl

  -- The runner that reading the source gives.
  abbrev new_runner : Text → Options → List (Statement X O) → CodeRunner X O
  new_runner source options body = record {
    compiled = false;
    source = source;
    options = options;
    ast = body;
    code_attribute = missing;
  }

  compile-IsUntransformed :
      (source : Text) (options : Options) (body : List (Statement X O)) (runner' : CodeRunner X O)
      → options.quiet_trailing_semicolon ≡ true
      → should_quiet python.generate_tokens (python.dedent source) ≡ ok true
      → (let (r, runner'') = compile python (new_runner source options body) in
          r >>= λ _. ok runner'')
        ≡ ok runner'
      → IsUntransformed body runner'
  unfolding compile
  compile-IsUntransformed source options body runner' q t h =
      set_code-IsUntransformed (record (new_runner source options body) { compiled = true }) runner'
        body options.filename
        (python.compile_module body options.filename options.mode options.flags)
        (sym (
            ap
              (λ finished.
                let (r, runner'') =
                  set_code python (record (new_runner source options body) { compiled = true })
                    finished in
                r >>= λ _. ok runner'')
              (compile-quiet source options body q t))
          ∙ h)

  compiled_runner-IsUntransformed :
      (source : Text) (options : Options) (runner' : CodeRunner X O)
      → options.quiet_trailing_semicolon ≡ true
      → should_quiet python.generate_tokens (python.dedent source) ≡ ok true
      → compiled_runner python source options ≡ ok runner'
      → (body : List (Statement X O)) × (parse python source options ≡ ok body)
        × IsUntransformed body runner'
  unfolding compiled_runner new_code_runner
  compiled_runner-IsUntransformed source options runner' q t h =
      let (runner, m, k) =
        bind-ok_inv (new_code_runner python source options)
          (λ runner. let (r, runner'') = compile python runner in r >>= λ _. ok runner'') runner'
          h in
      let (body, n, l) =
        bind-ok_inv (parse python source options) (λ body. ok (new_runner source options body))
          runner m in
      let same : new_runner source options body ≡ runner = cc l in
      (
        body,
        n,
        compile-IsUntransformed source options body runner' q t (
            ap (λ runner. let (r, runner'') = compile python runner in r >>= λ _. ok runner'') same
            ∙ k),
      )

  remembering-first :
      (self : Compile) (r : Result (CodeRunner X O)) → (remembering python features self r).0 ≡ r
  remembering-first self (ok runner) = refl
  remembering-first self (err x) = refl

  -- Whether the console's compiler is to quiet a trailing semicolon makes no difference: if the
  -- dedented source is quiet, by should_quiet, what the source is parsed to is compiled as it is, in any return
  -- mode.
  pub compile_call-quiet :
      (self : Compile) (source filename symbol : Text) (incomplete_input : Bool)
      (runner : CodeRunner X O)
      → should_quiet python.generate_tokens (python.dedent source) ≡ ok true
      → (compile_call python features self source filename symbol incomplete_input).0 ≡ ok runner
      → (body : List (Statement X O)) × (python.compile_source
            (python.dedent source)
            filename
            symbol
            (only_ast ∷ self.flags)
          ≡ ok body)
        × IsUntransformed body runner
  unfolding compile_call parse
  compile_call-quiet self source filename symbol incomplete_input runner t h =
      let build : ReturnMode → Result (CodeRunner X O) = λ return_mode.
        compiled_runner python source
          (runner_options python features self filename symbol return_mode) in
      let mode = return_mode_for python features self source in
      let (return_mode, m, k) =
        bind-ok_inv mode build runner (sym (remembering-first self (mode >>= build)) ∙ h) in
      compiled_runner-IsUntransformed source
        (runner_options python features self filename symbol return_mode) runner refl t k
