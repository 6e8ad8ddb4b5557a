-- ===== src/Runner/Imports.antt =====
-- `find_imports` and `pyimport_impl`, on the nodes of a parsed source in the order of `ast.walk`.
pub mod Laws
pub mod Path
use pyodide.Base.{
  ℕ, Text, Bool, true, false, ◌&&◌, ◌||◌, List, [], ◌∷◌, ◌++◌, Option, none, some, ◌-◌,
  if◌then◌else◌, ltb, eqb, text_eq, Result, ok, err, ◌>>=◌,
}
use pyodide.Base.Set.{add}
use pyodide.Base.Strings.Order.{sort}
use pyodide.Base.Strings.Methods.{split, first_part, after_last, slice_to, slice_from}

-- `names` are the name fields of an import's aliases.
pub data Node : Type 0 where
  import_node : List Text → Node
  import_from : Option Text → Node
  other_node : Node

-- name.split(".")[0]
unfoldable pub stem_of : Text → Text
unfolding split
stem_of module_name = first_part (split 46 module_name)

unfoldable pub add_stems : List Text → List Text → List Text
unfolding stem_of add
add_stems [] imports = imports
add_stems (module_name ∷ names) imports = add_stems names (add (stem_of module_name) imports)

unfoldable pub walk : List Node → List Text → List Text
unfolding add_stems add stem_of
walk [] imports = imports
walk (import_node names ∷ nodes) imports = walk nodes (add_stems names imports)
walk (import_from none ∷ nodes) imports = walk nodes imports
walk (import_from (some module_name) ∷ nodes) imports =
    walk nodes (add (stem_of module_name) imports)
walk (other_node ∷ nodes) imports = walk nodes imports

abbrev pub sorted_imports : Option (List Node) → List Text
sorted_imports none = []
sorted_imports (some nodes) = sort (walk nodes [])

-- `parse` is ast.parse with ast.walk: none for a SyntaxError.
unfoldable pub find_imports :
    (dedent : Text → Text) (parse : Text → Option (List Node)) → Text → List Text
unfolding walk sort
find_imports dedent parse source = sorted_imports (parse (dedent source))

-- path.rsplit(".", 1): what stands before the last full stop, and a list of what stands after it, if there
-- is one
unfoldable pub rsplit_once : Text → Text × List Text
unfolding after_last slice_to slice_from
rsplit_once path =
    let n = after_last 46 path in
    if eqb n 0 then (path, []) else (slice_to (n - 1) path, slice_from n path ∷ [])

-- `import_module` is `__import__`, with its argument fromlist; `get_attribute` is `getattr`.
module _ {M : Type 0} (import_module : Text → List Text → Result M)
    (get_attribute : M → Text → Result M) where
  abbrev pub from_module : List Text → M → Result M
  from_module [] res = ok res
  from_module (attribute ∷ rest) res = get_attribute res attribute

  unfoldable pub pyimport_impl : Text → Result M
  unfolding rsplit_once
  pyimport_impl path =
      let (stem, fromlist) = rsplit_once path in
      import_module stem fromlist >>= from_module fromlist
