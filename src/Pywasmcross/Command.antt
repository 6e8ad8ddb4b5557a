-- ===== src/Pywasmcross/Command.antt =====
-- The rewriting of a whole command line: `is_link_cmd`, `handle_command_generate_args`.
pub mod Loop
pub mod Lines
use pyodide.Base.{
  ℕ, Text, codes, Bool, true, false, not, ◌&&◌, ◌||◌, List, [], ◌∷◌, ◌++◌, map, Option, none, some,
  elem, any, ◌==◌, text_eq, nat_eq, length, if◌then◌else◌, Result, ok, err, Exception, ◌>>=◌,
}
use pyodide.Base.Strings.Methods.{starts_with, ends_with_any, has_text, slice_from, words}
use pyodide.Pywasmcross.Types.{CrossCompileArgs, Surroundings}
use pyodide.Pywasmcross.Arguments.{
  replay_genargs_handle_dashl, replay_genargs_handle_dash_i, replay_genargs_handle_linker_opts,
  replay_genargs_handle_argument, rest_of,
}
use pyodide.Pywasmcross.Exports.{get_export_flags}

-- The regular expression `(.\d+)*$`: `start` before the first group, `mid` after the character of a
-- group, `digits` after one or more of its digits. `$` also matches before a last newline.
unfoldable pub version_suffix : (ℕ → Bool) → Bool → Bool → Bool → Text → Bool
version_suffix decimal start mid digits [] = start || digits
version_suffix decimal start mid digits (c ∷ s) =
    ((c == 10) && ((start || digits) && length s == 0))
    || version_suffix decimal false ((start || digits) && not (c == 10))
        ((mid || digits) && decimal c) s

-- SHAREDLIB_REGEX.search(arg), for `\.so(.\d+)*$`
unfoldable pub sharedlib_search : (ℕ → Bool) → Text → Bool
unfolding version_suffix
sharedlib_search decimal [] = false
sharedlib_search decimal (a ∷ s) =
    (starts_with (a ∷ s) (codes ".so")
      && version_suffix decimal true false false (slice_from 3 (a ∷ s)))
    || sharedlib_search decimal s

unfoldable pub is_link_cmd : (ℕ → Bool) → List Text → Bool
unfolding sharedlib_search
is_link_cmd decimal line =
    any (λ arg. not (starts_with arg (codes "-")) && sharedlib_search decimal arg) line

-- `symlinks_dir / value` for each entry of `compiler_flags`
unfoldable pub get_cmake_compiler_flags : Surroundings → List Text
get_cmake_compiler_flags env =
    map (λ (key, value). codes "-D" ++ (key ++ (codes "=" ++ env.path_join env.symlinks_dir value)))
      ((codes "CMAKE_C_COMPILER", codes "cc")
        ∷ (codes "CMAKE_CXX_COMPILER", codes "c++")
        ∷ (codes "CMAKE_AR", codes "ar")
        ∷ (codes "CMAKE_C_COMPILER_AR", codes "ar")
        ∷ (codes "CMAKE_CXX_COMPILER_AR", codes "ar")
        ∷ [])

-- new_args[-1]
unfoldable pub get_last? : List Text → Option Text
get_last? [] = none
get_last? (w ∷ []) = some w
get_last? (w ∷ v ∷ vs) = get_last? (v ∷ vs)

-- del new_args[-1]
unfoldable pub drop_last : List Text → List Text
drop_last [] = []
drop_last (w ∷ []) = []
drop_last (w ∷ v ∷ vs) = w ∷ drop_last (v ∷ vs)

-- `if result: new_args.append(result)`
unfoldable pub append_result : List Text → Option Text → List Text
append_result new_args none = new_args
append_result new_args (some []) = new_args
append_result new_args (some (c ∷ r)) = new_args ++ (c ∷ r) ∷ []

abbrev pub Loop : Type 0
Loop = List Text × List Text

module _ (env : Surroundings) (target_install_dir : Text) where
  -- The handler that the prefix selects, with `used_libs` after it.
  unfoldable pub handle_arg : Text → List Text → Result (Option Text × List Text)
  handle_arg arg used_libs =
      if starts_with arg (codes "-l")
      then replay_genargs_handle_dashl arg used_libs
      else if starts_with arg (codes "-I")
      then (do r ← replay_genargs_handle_dash_i env arg target_install_dir; ok (r, used_libs))
      else if starts_with arg (codes "-Wl")
      then (do r ← replay_genargs_handle_linker_opts arg; ok (r, used_libs))
      else (do r ← replay_genargs_handle_argument arg; ok (r, used_libs))

  abbrev pub compiler_compat : Text → Text → Bool
  compiler_compat last arg = starts_with last (codes "-B") && has_text (codes "compiler_compat") arg

  -- The body of the loop, where `new_args[-1]` is `last`.
  unfoldable pub adjust_after : Option Text → Text → Loop → Result Loop
  adjust_after none arg s = err Exception.index_error
  adjust_after (some last) arg (new_args, used_libs) =
      if compiler_compat last arg
      then ok (drop_last new_args, used_libs)
      else (do (result, used) ← handle_arg arg used_libs; ok (append_result new_args result, used))

  -- One round of the loop, on `new_args` and `used_libs`.
  unfoldable pub adjust_arg : Text → Loop → Result Loop
  unfolding adjust_after get_last?
  adjust_arg arg s = adjust_after (get_last? s.0) arg s

  unfoldable pub adjust_args : List Text → Loop → Result Loop
  unfolding adjust_arg
  adjust_args [] s = ok s
  adjust_args (arg ∷ args) s = do s' ← adjust_arg arg s; adjust_args args s'

unfoldable pub error_flags : List Text
error_flags =
    codes "-Werror=implicit-function-declaration"
    ∷ codes "-Werror=mismatched-parameter-types"
    ∷ codes "-Werror=return-type"
    ∷ []

-- What the first word of the command line says: the new compiler, or the whole new line.
pub data Dispatch : Type 0 where
  compile : Text → Dispatch
  finished : List Text → Dispatch

-- The branch for cmake: building, installing and running a script are left alone.
unfoldable pub cmake_line : Surroundings → List Text → List Text
cmake_line env line =
    if elem (codes "--build") line || (elem (codes "--install") line || elem (codes "-P") line)
    then line
    else (codes "emcmake" ∷ codes "cmake" ∷ get_cmake_compiler_flags env)
      ++ codes "--fresh" ∷ rest_of line

-- The branch for meson.
unfoldable pub meson_line : Surroundings → List Text → List Text
meson_line env (w ∷ v ∷ rest) =
    if w == codes "meson" && v == codes "setup"
    then elim env.meson_cross_file [
      | none ↦ w ∷ v ∷ rest
      | some file ↦ codes "meson" ∷ codes "setup" ∷ codes "--cross-file" ∷ file ∷ rest
    ]
    else w ∷ v ∷ rest
meson_line env line = line

-- The chain of tests on `cmd = line[0]`; `args` is `line[1:]`.
unfoldable pub dispatch : Surroundings → Text → List Text → Dispatch
unfolding cmake_line meson_line
dispatch env cmd args =
    if cmd == codes "c++" || cmd == codes "g++"
    then compile (codes "em++")
    else if elem cmd (codes "cc" ∷ codes "gcc" ∷ codes "ld" ∷ codes "lld" ∷ [])
    then (if any (λ arg. ends_with_any arg (codes ".cpp" ∷ codes ".cc" ∷ [])) (cmd ∷ args)
        then compile (codes "em++")
        else compile (codes "emcc"))
    else if cmd == codes "ar"
    then finished (codes "emar" ∷ args)
    else if cmd == codes "cmake"
    then finished (cmake_line env (cmd ∷ args))
    else if cmd == codes "meson"
    then finished (meson_line env (cmd ∷ args))
    else if elem cmd (codes "install_name_tool" ∷ codes "otool" ∷ [])
    then finished (codes "echo" ∷ cmd ∷ args)
    else if cmd == codes "ranlib"
    then finished (codes "emranlib" ∷ args)
    else if cmd == codes "strip"
    then finished (codes "emstrip" ∷ args)
    else finished (cmd ∷ args)

-- What a link command adds.
unfoldable pub link_flags : Surroundings → CrossCompileArgs → List Text → Result (List Text)
unfolding is_link_cmd
link_flags env build_args line =
    if is_link_cmd env.is_decimal line
    then (do
      exports ← get_export_flags env line build_args.exports
      ok (codes "-Wl,--fatal-warnings" ∷ (words env.is_space build_args.ldflags ++ exports)))
    else ok []

-- What a compilation (`-c`) adds, for the new command line's first word.
unfoldable pub compile_flags : Surroundings → CrossCompileArgs → List Text → Text → List Text
compile_flags env build_args line compiler =
    let cflags = words env.is_space build_args.cflags in
    let cxxflags = words env.is_space build_args.cxxflags in
    let flags =
      if compiler == codes "emcc"
      then cflags
      else if compiler == codes "em++"
      then cflags ++ cxxflags
      else [] in
    let include =
      if build_args.pythoninclude == [] then [] else codes "-I" ∷ build_args.pythoninclude ∷ [] in
    if elem (codes "-c") line then flags ++ include else []

abbrev pub first_word : List Text → Text
first_word [] = []
first_word (w ∷ ws) = w

-- From the loop over the arguments to the end.
unfoldable pub compile_line :
    Surroundings → CrossCompileArgs → Text → List Text → Text → Result (List Text)
unfolding adjust_args link_flags compile_flags
compile_line env build_args cmd args compiler = do
  (new_args, used_libs) ← adjust_args env build_args.target_install_dir args (compiler ∷ [], [])
  let line = cmd ∷ args
  let with_errors = new_args ++ error_flags
  linked ← link_flags env build_args line
  ok ((with_errors ++ linked) ++ compile_flags env build_args line (first_word with_errors))

-- What follows the chain of tests on the first word.
unfoldable pub dispatched :
    Surroundings → CrossCompileArgs → Text → List Text → Dispatch → Result (List Text)
unfolding compile_line
dispatched env build_args cmd args (compile compiler) =
    compile_line env build_args cmd args compiler
dispatched env build_args cmd args (finished line) = ok line

-- `len(line) == 2 and line[1] == "-v"`, on `line[1:]`
abbrev pub is_version_query : List Text → Bool
is_version_query (arg ∷ []) = arg == codes "-v"
is_version_query _ = false

unfoldable pub handle_command_generate_args :
    Surroundings → CrossCompileArgs → List Text → Result (List Text)
unfolding dispatch dispatched
handle_command_generate_args env build_args [] = err Exception.index_error
handle_command_generate_args env build_args (cmd ∷ args) =
    if elem (codes "-print-multiarch") (cmd ∷ args)
    then ok (codes "echo" ∷ codes "wasm32-emscripten" ∷ [])
    else if is_version_query args
    then ok (codes "emcc" ∷ codes "-v" ∷ [])
    else dispatched env build_args cmd args (dispatch env cmd args)
