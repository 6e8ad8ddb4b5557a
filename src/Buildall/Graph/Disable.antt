-- ===== src/Buildall/Graph/Disable.antt =====
-- The second loop, in build order: a package is disabled if it is itself, or if a dependency is.
pub mod Laws
use pyodide.Base.{
  Text, codes, Bool, true, false, List, [], ◌∷◌, ◌&&◌, ◌||◌, elem, text_eq, if◌then◌else◌, Result,
  ok, err, ◌>>=◌, ◌>>◌,
}
use pyodide.Base.Dict.{put}
use pyodide.Buildall.Package.{Package, PackageMap, get_item}

-- for dep in pkg.dependencies: if pkg_map[dep].disabled: ... break
unfoldable pub any_disabled : List Text → PackageMap → Result Bool
any_disabled [] pkg_map = ok false
any_disabled (dep ∷ deps) pkg_map = do
  pkg ← get_item dep pkg_map
  if pkg.disabled then ok true else any_disabled deps pkg_map

module _ (disabled : List Text) (no_numpy_dependents : Bool) where
  -- `pkgname in disabled`, or a dependent of numpy where these are not wanted
  unfoldable pub excluded : Text → Package → Bool
  excluded name pkg =
      elem name disabled || (no_numpy_dependents && elem (codes "numpy") pkg.dependencies)

  unfoldable pub disable_step : Text → PackageMap → Result PackageMap
  unfolding any_disabled excluded
  disable_step name pkg_map = do
    pkg ← get_item name pkg_map
    dep_disabled ← if excluded name pkg then ok true else any_disabled pkg.dependencies pkg_map
    ok (if dep_disabled then put name (record pkg { disabled = true }) pkg_map else pkg_map)

  unfoldable pub disable_all : List Text → PackageMap → Result PackageMap
  unfolding disable_step
  disable_all [] pkg_map = ok pkg_map
  disable_all (name ∷ names) pkg_map = do
    pkg_map' ← disable_step name pkg_map
    disable_all names pkg_map'
