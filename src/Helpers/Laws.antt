-- ===== src/Helpers/Laws.antt =====
-- The names that are found in a wheel.
use pyodide.Base.{
  ℕ, zero, suc, ◌+◌, ◌≤◌, Text, codes, ◌≡◌, refl, ap, sym, ◌∙◌, Bool, true, false, ◌&&◌, ◌||◌, List,
  [], ◌∷◌, Option, none, some, any, nat_eq, if◌then◌else◌, Result, ok, Bool-cases, inl, inr, arith,
}
use pyodide.Base.Strings.Methods.{ends_with}
use pyodide.Helpers.{
  Entries, nothing, file, directory, is_python, valid_package_name, scan, search, searched,
  has_python_file, stem, import_if, top_level_imports, or_none, parse_top_level_import_name,
}

-- There is a Python file in the directory, or in one that is reached through directories with valid names.
unfoldable pub contains_python : Entries → Bool
contains_python nothing = false
contains_python (file name rest) = is_python name || contains_python rest
contains_python (directory name children rest) =
    (valid_package_name name && contains_python children) || contains_python rest

-- The directories in the tree.
unfoldable pub directories : Entries → ℕ
directories nothing = 0
directories (file name rest) = directories rest
directories (directory name children rest) = suc (directories children) + directories rest

-- The rounds that the queue is good for.
unfoldable pub rounds : List Entries → ℕ
unfolding directories
rounds [] = 0
rounds (entries ∷ queue) = suc (directories entries) + rounds queue

abbrev pub IsScanned : Entries → List Entries → Option (List Entries) → Type 0
IsScanned entries queue none = contains_python entries ≡ true
IsScanned entries queue (some queue') =
    (any contains_python queue' ≡ (contains_python entries || any contains_python queue))
    × (rounds queue' ≤ directories entries + rounds queue)

IsScanned-file :
    (name : Text) (rest : Entries) (queue : List Entries) (o : Option (List Entries))
    → is_python name ≡ false
    → IsScanned rest queue o
    → IsScanned (file name rest) queue o
unfolding contains_python directories
IsScanned-file name rest queue none h s = ground arith
IsScanned-file name rest queue (some queue') h (c, r) = (ground arith, r)

IsScanned-directory :
    (name : Text) (children rest : Entries) (queue : List Entries) (o : Option (List Entries))
    → IsScanned rest (if valid_package_name name then children ∷ queue else queue) o
    → IsScanned (directory name children rest) queue o
unfolding contains_python directories rounds any
IsScanned-directory name children rest queue none s = ground arith
IsScanned-directory name children rest queue (some queue') (c, r) =
    elim (Bool-cases (valid_package_name name)) [
      | inl valid ↦ (ground arith, ground arith)
      | inr other ↦ (ground arith, ground arith)
    ]

scan-IsScanned :
    (entries : Entries) (queue : List Entries) → IsScanned entries queue (scan entries queue)
unfolding scan contains_python
scan-IsScanned nothing queue = (refl, omega arith)
scan-IsScanned (file name rest) queue = elim (Bool-cases (is_python name)) [
  | inl python ↦ rw python (ground (arith, python))
  | inr other ↦
      rw other (IsScanned-file name rest queue (scan rest queue) other (scan-IsScanned rest queue))
]
scan-IsScanned (directory name children rest) queue =
    IsScanned-directory name children rest queue _
      (scan-IsScanned rest (if valid_package_name name then children ∷ queue else queue))

searched-eq :
    (search_on : List Entries → Result Bool) (entries : Entries) (queue : List Entries)
    (o : Option (List Entries))
    → IsScanned entries queue o
    → ((queue' : List Entries)
        → rounds queue' ≤ directories entries + rounds queue
        → search_on queue' ≡ ok (any contains_python queue'))
    → searched search_on o ≡ ok (any contains_python (entries ∷ queue))
unfolding any
searched-eq search_on entries queue none s h =
    let found : (contains_python entries || any contains_python queue) ≡ true = ground arith in
    ap (λ b. ok b) (sym found)
searched-eq search_on entries queue (some queue') (c, r) h = h queue' r ∙ ap (λ b. ok b) c

search_lem :
    (fuel : ℕ) (queue : List Entries)
    → rounds queue ≤ fuel
    → search fuel queue ≡ ok (any contains_python queue)
unfolding search any rounds
search_lem zero [] h = refl
search_lem (suc fuel) [] h = refl
search_lem zero (entries ∷ queue) h = absurd (omega (arith, h))
search_lem (suc fuel) (entries ∷ queue) h =
    searched-eq (λ next. search fuel next) entries queue (scan entries queue)
      (scan-IsScanned entries queue) (λ queue' r. search_lem fuel queue' (omega (arith, h, r)))

-- The Python files, and the directories with valid names that have one in them.
unfoldable pub import_names : Entries → List Text
unfolding contains_python
import_names nothing = []
import_names (file name rest) = import_if (is_python name) (stem name) (import_names rest)
import_names (directory name children rest) =
    import_if (valid_package_name name && contains_python children) name (import_names rest)

has_python_file_lem :
    (fuel : ℕ) (valid : Bool) (children : Entries)
    → suc (directories children) ≤ fuel
    → (if valid then has_python_file fuel children else ok false)
      ≡ ok (valid && contains_python children)
unfolding has_python_file rounds any
has_python_file_lem fuel false children h = refl
has_python_file_lem fuel true children h =
    search_lem fuel (children ∷ []) (omega (arith, h)) ∙ ap (λ b. ok b) (ground arith)

top_level_imports_lem :
    (fuel : ℕ) (entries : Entries)
    → directories entries ≤ fuel
    → top_level_imports fuel entries ≡ ok (import_names entries)
unfolding top_level_imports import_names directories
top_level_imports_lem fuel nothing h = refl
top_level_imports_lem fuel (file name rest) h = rw (top_level_imports_lem fuel rest h) refl
top_level_imports_lem fuel (directory name children rest) h =
    rw
      (
        has_python_file_lem fuel (valid_package_name name) children (omega (arith, h)),
        top_level_imports_lem fuel rest (omega (arith, h)),
      )
      refl

-- The search for Python files ends, within as many rounds as there are directories: the names for a wheel
-- are those of the Python files at its top, without their suffix, and of the directories there with valid
-- names that have a Python file in them or in a directory reached through valid names; None if there are none.
pub parse_top_level_import_name_lem :
    (fuel : ℕ) (whlfile : Text) (entries : Entries)
    → ends_with whlfile (codes ".whl") ≡ true
    → directories entries ≤ fuel
    → parse_top_level_import_name fuel whlfile entries ≡ ok (or_none (import_names entries))
unfolding parse_top_level_import_name
parse_top_level_import_name_lem fuel whlfile entries w h =
    rw (w, top_level_imports_lem fuel entries h) refl
