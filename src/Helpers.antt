-- ===== src/Helpers.antt =====
-- pyodide-build/pyodide_build/common.py: `parse_top_level_import_name`, on the tree of files in a wheel.
pub mod Laws
mod Tests
use pyodide.Base.{
  ℕ, zero, suc, ◌-◌, Text, codes, text_beq, Bool, true, false, not, ◌&&◌, ◌||◌, List, [], ◌∷◌, ◌++◌,
  Option, none, some, elem, nat_eq, length, if◌then◌else◌, Result, ok, err, ◌>>=◌, ◌>>◌, raise_if,
  Exception,
}
use pyodide.Base.Strings.Methods.{ends_with, slice_to}

-- The entries of a directory, in order: a file or a directory, and the entries that come after it.
pub data Entries : Type 0 where
  nothing : Entries
  file : Text → Entries → Entries
  directory : Text → Entries → Entries → Entries

unfoldable pub is_python : Text → Bool
unfolding codes ends_with
is_python name = ends_with name (codes ".py")

unfoldable pub valid_package_name : Text → Bool
unfolding elem
valid_package_name dirname =
    not (elem 46 dirname) && (not (elem 45 dirname) && not (elem 32 dirname))

-- One round of the `while` on what was popped: none if it returns True, or the queue, its last element first.
unfoldable pub scan : Entries → List Entries → Option (List Entries)
unfolding is_python valid_package_name
scan nothing queue = some queue
scan (file name rest) queue = let next = scan rest queue in if is_python name then none else next
scan (directory name children rest) queue =
    scan rest (if valid_package_name name then children ∷ queue else queue)

abbrev pub searched : (List Entries → Result Bool) → Option (List Entries) → Result Bool
searched search_on none = ok true
searched search_on (some queue) = search_on queue

-- At most as many rounds as the fuel.
unfoldable pub search : ℕ → List Entries → Result Bool
unfolding scan
search fuel [] = ok false
search zero (entries ∷ queue) = err Exception.no_fuel
search (suc fuel) (entries ∷ queue) = searched (λ next. search fuel next) (scan entries queue)

-- The fuel is the model's bound on the rounds.
unfoldable pub has_python_file : ℕ → Entries → Result Bool
unfolding search
has_python_file fuel subdir = search fuel (subdir ∷ [])

-- name[:-3]
unfoldable pub stem : Text → Text
unfolding slice_to
stem name = slice_to (length name - 3) name

abbrev pub import_if : Bool → Text → List Text → List Text
import_if true name names = name ∷ names
import_if false name names = names

unfoldable pub top_level_imports : ℕ → Entries → Result (List Text)
unfolding is_python valid_package_name has_python_file stem
top_level_imports fuel nothing = ok []
top_level_imports fuel (file name rest) =
    top_level_imports fuel rest >>= λ names. ok (import_if (is_python name) (stem name) names)
top_level_imports fuel (directory name children rest) =
    (if valid_package_name name then has_python_file fuel children else ok false) >>= λ found.
    (top_level_imports fuel rest >>= λ names. ok (import_if found name names))

abbrev pub or_none : List Text → Option (List Text)
or_none [] = none
or_none (name ∷ names) = some (name ∷ names)

unfoldable pub parse_top_level_import_name : ℕ → Text → Entries → Result (Option (List Text))
unfolding codes ends_with top_level_imports
parse_top_level_import_name fuel whlfile entries =
    raise_if (not (ends_with whlfile (codes ".whl")))
      (Exception.runtime_error (whlfile ++ codes " is not a wheel file."))
    >> (top_level_imports fuel entries >>= λ names. ok (or_none names))
