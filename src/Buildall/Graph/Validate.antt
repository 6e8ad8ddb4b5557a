-- ===== src/Buildall/Graph/Validate.antt =====
-- `_validate_package_map` of buildall.py, with `find_missing_executables` of common.py.
pub mod Laws
use pyodide.Base.{
  ℕ, Text, codes, Bool, true, false, not, List, [], ◌∷◌, ◌++◌, Option, none, some, text_eq, filter,
  if◌then◌else◌, Result, ok, err, Exception, ◌>>=◌, ◌>>◌,
}
use pyodide.Base.Strings.Methods.{join}
use pyodide.Base.Dict.{Dict, lookup, put}
use pyodide.Buildall.Package.{
  BuildSpecType, python_package, static_library, shared_library, cpython_module, Package,
  PackageMap, get_item,
}

abbrev pub is_static : BuildSpecType → Bool
is_static static_library = true
is_static _ = false

abbrev pub invalid_dependency : Text → Text → Text
invalid_dependency name dep =
    name
    ++ (codes " has an invalid dependency: "
        ++ (dep ++ codes ". Static libraries must be a host dependency."))

-- The run dependencies of one package.
unfoldable pub check_run_dependencies : Text → List Text → PackageMap → Result (Unit {0})
check_run_dependencies name [] pkg_map = ok tt
check_run_dependencies name (dep ∷ deps) pkg_map = do
  runtime_dep ← get_item dep pkg_map
  if is_static runtime_dep.package_type
      then err (Exception.value_error (invalid_dependency name dep))
      else check_run_dependencies name deps pkg_map

-- The first loop over `packages`, the items of `pkg_map`.
unfoldable pub check_packages : PackageMap → PackageMap → Result (Unit {0})
unfolding check_run_dependencies
check_packages [] pkg_map = ok tt
check_packages ((name, pkg) ∷ packages) pkg_map = do
  check_run_dependencies name pkg.run_dependencies pkg_map
  check_packages packages pkg_map

abbrev pub is_none {ℓ} : {A : Type ℓ} → Option A → Bool
is_none none = true
is_none (some a) = false

module _ (which : Text → Option Text) where
  unfoldable pub find_missing_executables : List Text → List Text
  find_missing_executables executables = filter (λ exe. is_none (which exe)) executables

  abbrev pub names_for : Option (List Text) → List Text
  names_for none = []
  names_for (some names) = names

  -- missing_executables[exe].append(name), for each missing executable of one package
  unfoldable pub note_missing : Text → List Text → Dict Text (List Text) → Dict Text (List Text)
  note_missing name [] missing = missing
  note_missing name (exe ∷ exes) missing =
      note_missing name exes (put exe (names_for (lookup exe missing) ++ name ∷ []) missing)

  unfoldable pub missing_executables : PackageMap → Dict Text (List Text) → Dict Text (List Text)
  unfolding find_missing_executables note_missing
  missing_executables [] missing = missing
  missing_executables ((name, pkg) ∷ packages) missing =
      missing_executables packages
        (note_missing name (find_missing_executables pkg.executables_required) missing)

  unfoldable pub missing_lines : Dict Text (List Text) → Text
  missing_lines [] = []
  missing_lines ((exe, pkgs) ∷ missing) =
      (codes "- " ++ (exe ++ (codes " (required by: " ++ (join (codes ", ") pkgs ++ codes ")\n"))))
      ++ missing_lines missing

  abbrev pub raise_missing : Dict Text (List Text) → Result Bool
  raise_missing [] = ok true
  raise_missing (entry ∷ missing) = err (
      Exception.runtime_error (
        codes "The following executables are missing in the host system:\n"
        ++ missing_lines (entry ∷ missing)))

  unfoldable pub validate_package_map : PackageMap → Result Bool
  unfolding check_packages missing_executables
  validate_package_map pkg_map = do
    check_packages pkg_map pkg_map
    raise_missing (missing_executables pkg_map [])
