-- ===== src/Pywasmcross/Tests.antt =====
-- Runs of the command rewriting on small inputs, and the theorems at inputs that meet their conditions.
use pyodide.Base.{
  ℕ, Text, codes, text_beq, ◌≡◌, refl, Bool, true, false, List, [], ◌∷◌, ◌++◌, map, none, some,
  elem, any, filter, all, count, ◌||◌, eqb, ok, ◌&&◌, leb, text_eq,
}
use pyodide.Base.Strings.Methods.{
  slice_from, starts_with, starts_with_any, ends_with_any, split, join, strip, words, replace,
  has_text,
}
use pyodide.Base.Strings.Laws.{AllLack}
use pyodide.Base.{◌≤◌, ◌==◌, if◌then◌else◌, ◌>>=◌}
use pyodide.Pywasmcross.Types.{CrossCompileArgs, Surroundings, pyinit}
use pyodide.Pywasmcross.Arguments.{
  replay_genargs_handle_linker_opts, keeps_link_opt, rest_of, replay_genargs_handle_dash_i,
  replay_genargs_handle_dashl, replay_genargs_handle_argument,
}
use pyodide.Pywasmcross.Arguments.Laws.{handle_linker_opts_stable}
use pyodide.Pywasmcross.Exports.{calculate_object_exports_readobj_parse, get_export_flags}
use pyodide.Pywasmcross.Exports.Readobj.{
  opening, closing, Symbol, KeepsMarks, IsDetail, IsPrintable, printed_all, name_line, symbol_name,
  is_exported, readobj_parse-print,
}
use pyodide.Pywasmcross.Exports.Flags.{
  Picks, names_object, ExportsModule, nm_run, get_export_flags-pyinit,
}
use pyodide.Pywasmcross.Command.{
  Loop, is_link_cmd, handle_arg, append_result, error_flags, adjust_args, link_flags,
  handle_command_generate_args,
}
use pyodide.Pywasmcross.Command.Loop.{adjust_args_total}
use pyodide.Pywasmcross.Command.Lines.{
  is_compilation, is_cpp, compiler_of, flags_of, generate_args_lem,
}

-- ASCII text, and commands that print two symbols.
abbrev spaces : ℕ → Bool
spaces c = eqb c 32 || eqb c 10

abbrev digits : ℕ → Bool
digits c = leb 48 c && leb c 57

abbrev plain : Surroundings
plain = record {
  is_space = spaces;
  is_decimal = digits;
  repr = join (codes ",");
  splitlines = split 10;
  resolve = λ p. p;
  path_join = λ p q. p ++ (codes "/" ++ q);
  sys_prefix = codes "/py";
  sys_base_prefix = codes "/base";
  symlinks_dir = codes "/links";
  meson_cross_file = none;
  which = λ p. some p;
  run = λ args. record { returncode = 0; stdout = codes "PyInit_a"; stderr = [] };
}

abbrev no_args : CrossCompileArgs
no_args = record {
  cflags = [];
  cxxflags = [];
  ldflags = [];
  pkgname = [];
  target_install_dir = codes "/target";
  pythoninclude = [];
  exports = pyinit;
}

-- Everything that the runs compute with.
program : Unit {0}
unfolding handle_command_generate_args replay_genargs_handle_dashl replay_genargs_handle_dash_i
    replay_genargs_handle_linker_opts replay_genargs_handle_argument handle_arg append_result
    error_flags is_link_cmd codes text_beq elem any all filter starts_with starts_with_any
    ends_with_any has_text words slice_from split join replace strip printed_all name_line
    symbol_name is_exported
program = tt

-- The example of the docstring.
generate_docstring :
    handle_command_generate_args plain no_args (codes "gcc" ∷ codes "test.c" ∷ [])
    ≡ ok (
        codes "emcc"
        ∷ codes "test.c"
        ∷ codes "-Werror=implicit-function-declaration"
        ∷ codes "-Werror=mismatched-parameter-types"
        ∷ codes "-Werror=return-type"
        ∷ [])
unfolding program
generate_docstring = refl

link_names :
    (is_link_cmd digits (codes "a/b.so.1.2" ∷ []) ≡ true)
    × (is_link_cmd digits (codes "b.so.x" ∷ []) ≡ false)
unfolding program
link_names = (refl, refl)

dash_i_moves_prefix :
    replay_genargs_handle_dash_i plain (codes "-I/py/include/python3.11/x") (codes "/target")
    ≡ ok (some (codes "-I/target/include/python3.11/x"))
unfolding program
dash_i_moves_prefix = refl

linker_opts_run :
    replay_genargs_handle_linker_opts (codes "-Wl,--as-needed,-z,-R/lib")
    ≡ ok (some (codes "-Wl,-z"))
unfolding program
linker_opts_run = refl

handle_linker_opts_stable_example :
    (split b',' (codes "-Wl,-z")
      ≡ codes "-Wl"
        ∷ filter keeps_link_opt (rest_of (split b',' (codes "-Wl,--as-needed,-z,-R/lib"))))
    × (replay_genargs_handle_linker_opts (codes "-Wl,-z") ≡ ok (some (codes "-Wl,-z")))
handle_linker_opts_stable_example =
    handle_linker_opts_stable (codes "-Wl,--as-needed,-z,-R/lib") (codes "-Wl,-z") linker_opts_run

emcc_word :
    (starts_with (codes "emcc") (codes "-B") ≡ false)
    × (starts_with (codes "emcc") (codes "-l") ≡ false)
unfolding program
emcc_word = (refl, refl)

abbrev libs : List Text
libs = codes "a.o" ∷ codes "-lm" ∷ codes "-lffi" ∷ codes "-lm" ∷ []

adjust_args_total_example :
    (s : Loop) × (adjust_args plain (codes "/target") libs (codes "emcc" ∷ [], []) ≡ ok s)
    × ((tail : List Text) × (s.0 ≡ codes "emcc" ∷ tail))
    × ((a : Text) → starts_with a (codes "-l") ≡ true → count a s.0 ≤ 1)
    × (count (codes "-lffi") s.0 ≡ 0)
    × (count (codes "-lgfortran") s.0 ≡ 0)
adjust_args_total_example =
    adjust_args_total plain (codes "/target") (codes "emcc") libs emcc_word.0 emcc_word.1

compilation : is_compilation (codes "gcc") (codes "-c" ∷ codes "test.cpp" ∷ codes "-lm" ∷ []) ≡ true
unfolding program
compilation = refl

generate_args_lem_example :
    let cpp = is_cpp (codes "gcc") (codes "-c" ∷ codes "test.cpp" ∷ codes "-lm" ∷ []) in
    let start = compiler_of cpp ∷ [] in
    let args = codes "-c" ∷ codes "test.cpp" ∷ codes "-lm" ∷ [] in
    (new_args used : List Text) × (adjust_args plain no_args.target_install_dir args (start, [])
      ≡ ok (start ++ new_args, used))
    × ((a : Text) → starts_with a (codes "-l") ≡ true → count a (start ++ new_args) ≤ 1)
    × (count (codes "-lffi") (start ++ new_args) ≡ 0)
    × (count (codes "-lgfortran") (start ++ new_args) ≡ 0)
    × (handle_command_generate_args plain no_args (codes "gcc" ∷ args) ≡ (
        link_flags plain no_args (codes "gcc" ∷ args) >>= λ linked. ok (
          (((start ++ new_args) ++ error_flags) ++ linked)
          ++ (if elem (codes "-c") (codes "gcc" ∷ args) then flags_of plain no_args cpp else []))))
generate_args_lem_example =
    generate_args_lem plain no_args (codes "gcc") (codes "-c" ∷ codes "test.cpp" ∷ codes "-lm" ∷ [])
      compilation

abbrev shown : Symbol
shown = record { label = codes " g2"; details = codes "Flags [" ∷ codes "]" ∷ [] }

abbrev hidden : Symbol
hidden = record { label = codes " f2"; details = codes "VISIBILITY_HIDDEN (0x4)" ∷ [] }

marks : KeepsMarks spaces
unfolding program
marks = record { opening_stripped = refl; closing_stripped = refl }

plain-IsDetail :
    (line : Text)
    → strip spaces line ≡ line
    → (line == opening) ≡ false
    → (line == closing) ≡ false
    → starts_with line (codes "Name:") ≡ false
    → IsDetail spaces line
plain-IsDetail line a b c d = record {
  stripped = a;
  not_opening = b;
  not_closing = c;
  not_name = d;
}

shown-IsPrintable : IsPrintable spaces shown
unfolding program
shown-IsPrintable = record {
  name_stripped = refl;
  named = λ e. cc;
  all_details = (
    plain-IsDetail (codes "Flags [") refl refl refl refl,
    (plain-IsDetail (codes "]") refl refl refl refl, tt),
  );
}

hidden-IsPrintable : IsPrintable spaces hidden
unfolding program
hidden-IsPrintable = record {
  name_stripped = refl;
  named = λ e. cc;
  all_details = (plain-IsDetail (codes "VISIBILITY_HIDDEN (0x4)") refl refl refl refl, tt);
}

one_line_each : AllLack 10 (printed_all (shown ∷ hidden ∷ []))
unfolding program
one_line_each = (refl, (refl, (refl, (refl, (refl, (refl, (refl, (refl, (refl, tt)))))))))

readobj_parse-print_example :
    calculate_object_exports_readobj_parse spaces
      (join (10 ∷ []) (printed_all (shown ∷ hidden ∷ [])))
    ≡ ok (map (symbol_name spaces) (filter is_exported (shown ∷ hidden ∷ [])))
readobj_parse-print_example =
    readobj_parse-print spaces shown (hidden ∷ []) marks
      (shown-IsPrintable, (hidden-IsPrintable, tt)) one_line_each

readobj_run : map (symbol_name spaces) (filter is_exported (shown ∷ hidden ∷ [])) ≡ codes "g2" ∷ []
unfolding program
readobj_run = refl

get_export_flags-pyinit_example :
    (objects : List Text) × Picks names_object (codes "a.o" ∷ codes "-v" ∷ []) objects
    × ExportsModule plain
        (nm_run plain objects)
        (get_export_flags plain (codes "a.o" ∷ codes "-v" ∷ []) pyinit)
get_export_flags-pyinit_example = get_export_flags-pyinit plain (codes "a.o" ∷ codes "-v" ∷ [])
