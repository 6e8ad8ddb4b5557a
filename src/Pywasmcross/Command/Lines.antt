-- ===== src/Pywasmcross/Command/Lines.antt =====
-- What a compiler's command line is rewritten to.
use pyodide.Base.{
  Text, codes, ◌≡◌, refl, ap, sym, ◌∙◌, Bool, true, false, ◌&&◌, ◌||◌, List, [], ◌∷◌, ◌++◌, elem,
  any, count, text_eq, ◌==◌, if◌then◌else◌, arith, ok, ◌>>=◌, ◌≤◌, nat_eq, not, subst, text_beq,
}
use pyodide.Base.Strings.Methods.{starts_with, ends_with_any, words}
use pyodide.Pywasmcross.Types.{CrossCompileArgs, Surroundings}
use pyodide.Pywasmcross.Command.{
  dispatch, compile, error_flags, compile_line, link_flags, compile_flags, adjust_args,
  is_version_query, handle_command_generate_args,
}
use pyodide.Pywasmcross.Command.Loop.{adjust_args_total}

-- The first word is a compiler's, and the line is not one of the two queries.
abbrev pub is_compilation : Text → List Text → Bool
is_compilation cmd args =
    (elem cmd (codes "c++" ∷ codes "g++" ∷ [])
      || elem cmd (codes "cc" ∷ codes "gcc" ∷ codes "ld" ∷ codes "lld" ∷ []))
    && (not (elem (codes "-print-multiarch") (cmd ∷ args)) && not (is_version_query args))

-- The line compiles C++: by its compiler, or by one of its files.
abbrev pub is_cpp : Text → List Text → Bool
is_cpp cmd args =
    elem cmd (codes "c++" ∷ codes "g++" ∷ [])
    || any (λ arg. ends_with_any arg (codes ".cpp" ∷ codes ".cc" ∷ [])) (cmd ∷ args)

abbrev pub compiler_of : Bool → Text
compiler_of cpp = if cpp then codes "em++" else codes "emcc"

-- The flags for `-c`.
abbrev pub flags_of : Surroundings → CrossCompileArgs → Bool → List Text
flags_of env build_args cpp =
    (if cpp
      then words env.is_space build_args.cflags ++ words env.is_space build_args.cxxflags
      else words env.is_space build_args.cflags)
    ++ (if build_args.pythoninclude == [] then [] else codes "-I" ∷ build_args.pythoninclude ∷ [])

dispatch-compile :
    (env : Surroundings) (cmd : Text) (args : List Text)
    → is_compilation cmd args ≡ true
    → dispatch env cmd args ≡ compile (compiler_of (is_cpp cmd args))
unfolding dispatch elem
dispatch-compile env cmd args h = ground arith

compile_flags-flags_of :
    (env : Surroundings) (build_args : CrossCompileArgs) (line : List Text) (cpp : Bool)
    → compile_flags env build_args line (compiler_of cpp)
      ≡ (if elem (codes "-c") line then flags_of env build_args cpp else [])
unfolding compile_flags text_beq
compile_flags-flags_of env build_args line true = unfold codes in refl
compile_flags-flags_of env build_args line false = unfold codes in refl

no_prefix :
    (cpp : Bool)
    → (starts_with (compiler_of cpp) (codes "-B") ≡ false)
      × (starts_with (compiler_of cpp) (codes "-l") ≡ false)
unfolding starts_with codes
no_prefix true = (refl, refl)
no_prefix false = (refl, refl)

compile_line-rewritten :
    (env : Surroundings) (build_args : CrossCompileArgs) (cmd : Text) (args : List Text)
    (cpp : Bool) (tail used : List Text)
    → adjust_args env build_args.target_install_dir args (compiler_of cpp ∷ [], [])
      ≡ ok (compiler_of cpp ∷ tail, used)
    → compile_line env build_args cmd args (compiler_of cpp) ≡ (
        link_flags env build_args (cmd ∷ args) >>= λ linked. ok (
          (((compiler_of cpp ∷ tail) ++ error_flags) ++ linked)
          ++ (if elem (codes "-c") (cmd ∷ args) then flags_of env build_args cpp else [])))
unfolding compile_line
compile_line-rewritten env build_args cmd args cpp tail used loop = rw loop (
    ap
      (λ flags. link_flags env build_args (cmd ∷ args) >>= λ linked.
        ok ((((compiler_of cpp ∷ tail) ++ error_flags) ++ linked) ++ flags))
      (compile_flags-flags_of env build_args (cmd ∷ args) cpp))

-- A compiler's command line, which is not one of the two queries, is rewritten to: the word em++ if it compiles
-- C++, by its first word or by the name of a file, or else emcc; its arguments as the loop rewrites them, no
-- `-l` argument twice and neither `-lffi` nor `-lgfortran`; the flags for errors; what a link adds; and, if it
-- has `-c`, the flags for C, those for C++ if it is that, and the path of Python's headers if there is one. Only
-- what a link adds can raise.
pub generate_args_lem :
    (env : Surroundings) (build_args : CrossCompileArgs) (cmd : Text) (args : List Text)
    → is_compilation cmd args ≡ true
    → let cpp = is_cpp cmd args in
      let start = compiler_of cpp ∷ [] in
      (new_args used : List Text) × (adjust_args env build_args.target_install_dir args (start, [])
        ≡ ok (start ++ new_args, used))
      × ((a : Text) → starts_with a (codes "-l") ≡ true → count a (start ++ new_args) ≤ 1)
      × (count (codes "-lffi") (start ++ new_args) ≡ 0)
      × (count (codes "-lgfortran") (start ++ new_args) ≡ 0)
      × (handle_command_generate_args env build_args (cmd ∷ args) ≡ (
          link_flags env build_args (cmd ∷ args) >>= λ linked. ok (
            (((start ++ new_args) ++ error_flags) ++ linked)
            ++ (if elem (codes "-c") (cmd ∷ args) then flags_of env build_args cpp else []))))
unfolding handle_command_generate_args
generate_args_lem env build_args cmd args h =
    let cpp = is_cpp cmd args in
    let compiler = compiler_of cpp in
    let (b, l) = no_prefix cpp in
    let (s, e, (tail, kept), once, ffi, gfortran) =
      adjust_args_total env build_args.target_install_dir compiler args b l in
    let loop : adjust_args env build_args.target_install_dir args (compiler ∷ [], [])
        ≡ ok (compiler ∷ tail, s.1) =
      e ∙ ap (λ ws. ok (ws, s.1)) kept in
    let multiarch : elem (codes "-print-multiarch") (cmd ∷ args) ≡ false = ground arith in
    let version : is_version_query args ≡ false = ground arith in
    (
      tail,
      s.1,
      loop,
      λ a m. subst (λ ws. count a ws ≤ 1) kept (once a m),
      sym (ap (count (codes "-lffi")) kept) ∙ ffi,
      sym (ap (count (codes "-lgfortran")) kept) ∙ gfortran,
      rw (multiarch, version, dispatch-compile env cmd args h)
          (compile_line-rewritten env build_args cmd args cpp tail s.1 loop),
    )
