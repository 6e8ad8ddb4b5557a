-- ===== src/Pywasmcross/Exports.antt =====
-- The symbols that a link exports: `_calculate_object_exports_readobj_parse` to `get_export_flags`.
pub mod Readobj
pub mod Flags
use pyodide.Base.{
  ℕ, Text, codes, Bool, true, false, not, ◌||◌, List, [], ◌∷◌, ◌++◌, map, Option, none, some, ◌==◌,
  text_eq, nat_eq, filter, if◌then◌else◌, Result, ok, err, Exception, Completed, ◌>>=◌, ◌>>◌,
}
use pyodide.Base.Strings.Methods.{
  starts_with, starts_with_any, ends_with_any, remove_prefix, has_text, split, join, strip,
}
use pyodide.Pywasmcross.Types.{Exports, whole_archive, requested, pyinit, listed, Surroundings}

-- The variables of the loop over the lines of llvm-readobj's output.
pub record Parse : Type 0 where
  pub result : List Text
  pub insymbol : Bool
  pub export : Bool
  pub name : Option Text
  pub symbol_lines : List Text

abbrev pub hiding_flags : List Text
hiding_flags = codes "BINDING_LOCAL" ∷ codes "UNDEFINED" ∷ codes "VISIBILITY_HIDDEN" ∷ []

abbrev pub no_name : List Text → Exception
no_name lines =
    Exception.runtime_error (codes "Didn't find symbol's name:\n" ++ join (10 ∷ []) lines)

-- The end of a symbol: an exported one has to have a name.
unfoldable pub end_symbol : Parse → Result Parse
end_symbol p = elim p.name [
  | none ↦ if p.export then err (no_name p.symbol_lines) else ok (record p { insymbol = false })
  | some [] ↦ if p.export then err (no_name p.symbol_lines) else ok (record p { insymbol = false })
  | some (c ∷ n) ↦
      if p.export
      then ok (record p { insymbol = false; result = p.result ++ (c ∷ n) ∷ [] })
      else ok (record p { insymbol = false })
]

unfoldable pub note_name : (ℕ → Bool) → Text → Parse → Parse
note_name space line p =
    if starts_with line (codes "Name:")
    then record p { name = some (strip space (remove_prefix line (codes "Name:"))) }
    else p

unfoldable pub note_flags : Text → Parse → Parse
note_flags line p = if starts_with_any line hiding_flags then record p { export = false } else p

-- One line, stripped already.
unfoldable pub parse_line : (ℕ → Bool) → Text → Parse → Result Parse
unfolding end_symbol note_name note_flags
parse_line space line p =
    if line == codes "Symbol {"
    then ok (record p { insymbol = true; export = true; name = none; symbol_lines = line ∷ [] })
    else if not p.insymbol
    then ok p
    else let p' =
        note_flags line
          (note_name space line (record p { symbol_lines = p.symbol_lines ++ line ∷ [] })) in
      if line == codes "}" then end_symbol p' else ok p'

unfoldable pub parse_lines : (ℕ → Bool) → List Text → Parse → Result Parse
unfolding parse_line
parse_lines space [] p = ok p
parse_lines space (line ∷ lines) p = do
  p' ← parse_line space (strip space line) p
  parse_lines space lines p'

abbrev pub parse_start : Parse
parse_start = record {
  result = [];
  insymbol = false;
  export = false;
  name = none;
  symbol_lines = [];
}

unfoldable pub calculate_object_exports_readobj_parse : (ℕ → Bool) → Text → Result (List Text)
unfolding parse_lines
calculate_object_exports_readobj_parse space output = do
  p ← parse_lines space (split 10 output) parse_start
  ok p.result

module _ (env : Surroundings) where
  unfoldable pub readobj_path : Result Text
  readobj_path = elim (env.which (codes "llvm-readobj")) [
    | some (c ∷ p) ↦ ok (c ∷ p)
    | _ ↦ elim (env.which (codes "emcc")) [
      | some (c ∷ p) ↦ ok (env.resolve (env.path_join (c ∷ p) (codes "../../bin/llvm-readobj")))
      | _ ↦ err Exception.assertion_error
    ]
  ]

  -- A command that fails ends the program with its code. None: an object is bitcode.
  unfoldable pub calculate_object_exports_readobj : List Text → Result (Option (List Text))
  unfolding readobj_path
  calculate_object_exports_readobj objects = do
    path ← readobj_path
    let done = env.run ((path ∷ codes "--section-details" ∷ codes "-st" ∷ []) ++ objects)
    if not (done.returncode == 0)
        then err (Exception.system_exit done.returncode)
        else if has_text (codes "bitcode files are not supported") done.stderr
        then ok none
        else (do
          exports ← calculate_object_exports_readobj_parse env.is_space done.stdout
          ok (some exports))

  unfoldable pub calculate_object_exports_nm : List Text → Result (List Text)
  calculate_object_exports_nm objects =
      let done = env.run ((codes "emnm" ∷ codes "-j" ∷ codes "--export-symbols" ∷ []) ++ objects) in
      if not (done.returncode == 0)
      then err (Exception.system_exit done.returncode)
      else ok (env.splitlines done.stdout)

unfoldable pub filter_objects : List Text → List Text
filter_objects line =
    filter (λ arg. ends_with_any arg (codes ".a" ∷ codes ".o" ∷ []) || starts_with arg (codes "@"))
      line

unfoldable pub is_pyinit : Text → Bool
is_pyinit x = starts_with x (codes "PyInit")

module _ (env : Surroundings) where
  abbrev pub or_nm : List Text → Option (List Text) → Result (List Text)
  or_nm objects (some exports) = ok exports
  or_nm objects none = calculate_object_exports_nm env objects

  unfoldable pub calculate_exports : List Text → Bool → Result (List Text)
  unfolding is_pyinit
  calculate_exports line export_all =
      let objects = filter_objects line in
      do
        exports ← if export_all then calculate_object_exports_readobj env objects else ok none
        all_exports ← or_nm objects exports
        if export_all then ok all_exports else ok (filter is_pyinit all_exports)

  abbrev pub export_list : List Text → Exports → Result (List Text)
  export_list line requested = calculate_exports line true
  export_list line (listed names) = ok names
  export_list line _ = calculate_exports line false

  -- The values that the generator yields.
  unfoldable pub get_export_flags : List Text → Exports → Result (List Text)
  get_export_flags line whole_archive = ok []
  get_export_flags line exports = do
    names ← export_list line exports
    ok (
        codes "-sSIDE_MODULE=2"
        ∷ (codes "-sEXPORTED_FUNCTIONS=" ++ env.repr (map (λ x. codes "_" ++ x) names))
        ∷ [])
