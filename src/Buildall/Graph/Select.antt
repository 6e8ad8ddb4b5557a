-- ===== src/Buildall/Graph/Select.antt =====
-- The third loop, in reverse build order: the packages that are requested, or dependencies of such, and
-- not disabled. It also notes each package's host dependents.
pub mod Dependents
pub mod Step
pub mod Round
pub mod Restrict
use pyodide.Base.{
  ℕ, Text, codes, Bool, true, false, not, List, [], ◌∷◌, Option, none, some, elem, text_eq,
  if◌then◌else◌, Result, ok, err, Exception, ◌>>=◌, ◌>>◌,
}
use mathlib.Core.List.{reverse}
use pyodide.Base.Set.{add, discard, update}
use pyodide.Base.Dict.{Dict, put, keys}
use pyodide.Buildall.Package.{MetaConfig, Package, PackageMap, get_item}
use pyodide.Buildall.Graph.Interfaces.{SetPop, Sorter}
use pyodide.Buildall.Graph.Collect.{collect, graph_of}
use pyodide.Buildall.Graph.Disable.{disable_all}

-- for dep in pkg.host_dependencies: pkg_map[dep].host_dependents.add(pkg.name)
unfoldable pub add_host_dependent : Text → List Text → PackageMap → Result PackageMap
add_host_dependent name [] pkg_map = ok pkg_map
add_host_dependent name (dep ∷ deps) pkg_map = do
  pkg ← get_item dep pkg_map
  add_host_dependent name deps
      (put dep (record pkg { host_dependents = add name pkg.host_dependents }) pkg_map)

-- The variables of the loop: `requested_with_deps`, `disabled_packages` and `pkg_map`.
pub record Selection : Type 0 where
  pub requested_with_deps : List Text
  pub disabled_packages : List Text
  pub pkg_map : PackageMap

unfoldable pub select_step : Text → Selection → Result Selection
unfolding add_host_dependent
select_step name s = do
  pkg ← get_item name s.pkg_map
  if pkg.disabled
      then ok (record s {
        requested_with_deps = discard name s.requested_with_deps;
        disabled_packages = add name s.disabled_packages;
      })
      else if not (elem name s.requested_with_deps)
      then ok s
      else (do
        m ← add_host_dependent pkg.name pkg.host_dependencies s.pkg_map
        ok (record s {
          requested_with_deps = update pkg.dependencies s.requested_with_deps;
          pkg_map = m;
        }))

unfoldable pub select_loop : List Text → Selection → Result Selection
unfolding select_step
select_loop [] s = ok s
select_loop (name ∷ names) s = do s' ← select_step name s; select_loop names s'

-- {name: pkg_map[name] for name in requested_with_deps}
unfoldable pub restrict : List Text → PackageMap → Result PackageMap
restrict [] pkg_map = ok []
restrict (name ∷ names) pkg_map = do
  pkg ← get_item name pkg_map
  rest ← restrict names pkg_map
  ok ((name, pkg) ∷ rest)
