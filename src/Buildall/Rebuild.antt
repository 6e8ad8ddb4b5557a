-- ===== src/Buildall/Rebuild.antt =====
-- `mark_package_needs_build` and `generate_needs_build_set` of buildall.py. Whether a package's own files
-- call for a rebuild is read outside the model.
pub mod Laws
use pyodide.Base.{
  ℕ, zero, suc, Text, text_eq, Bool, List, [], ◌∷◌, elem, if◌then◌else◌, Result, ok, err, Exception,
  ◌>>=◌,
}
use pyodide.Base.Set.{add}
use pyodide.Base.Dict.{values}
use pyodide.Buildall.Package.{Package, PackageMap, get_item}

module _ (pkg_map : PackageMap) where
  -- for dep in pkg.host_dependents, with the call of the function itself as `mark`
  unfoldable pub mark_dependents :
      (Package → List Text → Result (List Text)) → List Text → List Text → Result (List Text)
  mark_dependents mark [] needs_build = ok needs_build
  mark_dependents mark (dep ∷ deps) needs_build = do
    pkg ← get_item dep pkg_map
    needs_build' ← mark pkg needs_build
    mark_dependents mark deps needs_build'

  -- Python allows as many calls inside each other as the number says.
  unfoldable pub mark_package_needs_build : ℕ → Package → List Text → Result (List Text)
  unfolding mark_dependents
  mark_package_needs_build zero pkg needs_build = err Exception.recursion_error
  mark_package_needs_build (suc depth) pkg needs_build =
      if elem pkg.name needs_build
      then ok needs_build
      else mark_dependents (mark_package_needs_build depth) pkg.host_dependents
          (add pkg.name needs_build)

  unfoldable pub mark_each : ℕ → (Package → Bool) → List Package → List Text → Result (List Text)
  unfolding mark_package_needs_build
  mark_each depth needs_rebuild [] needs_build = ok needs_build
  mark_each depth needs_rebuild (pkg ∷ pkgs) needs_build = do
    needs_build' ←
        (if needs_rebuild pkg
          then mark_package_needs_build depth pkg needs_build
          else ok needs_build)
    mark_each depth needs_rebuild pkgs needs_build'

  unfoldable pub generate_needs_build_set : ℕ → (Package → Bool) → Result (List Text)
  unfolding mark_each
  generate_needs_build_set depth needs_rebuild = mark_each depth needs_rebuild (values pkg_map) []
