-- ===== src/Buildall/Graph/Collect.antt =====
-- The first loop: the requested packages and, transitively, their dependencies.
pub mod Laws
use pyodide.Base.{
  ℕ, zero, suc, Text, codes, Bool, true, false, List, [], ◌∷◌, ◌++◌, Option, none, some, elem,
  length, text_eq, if◌then◌else◌, Result, ok, err, Exception, ◌>>=◌, ◌>>◌,
}
use pyodide.Base.Set.{add, discard}
use pyodide.Base.Dict.{Dict, lookup, put}
use pyodide.Buildall.Package.{MetaConfig, Package, PackageMap, new_package}
use pyodide.Buildall.Graph.Interfaces.{SetPop, DependencyGraph}

-- for dep in pkg.dependencies: if pkg_map.get(dep) is None: packages.add(dep)
unfoldable pub add_missing : List Text → PackageMap → List Text → List Text
add_missing [] pkg_map packages = packages
add_missing (dep ∷ deps) pkg_map packages = elim (lookup dep pkg_map) [
  | none ↦ add_missing deps pkg_map (add dep packages)
  | some pkg ↦ add_missing deps pkg_map packages
]

abbrev pub no_metadata : Text → Text
no_metadata name = codes "No metadata file found for the following package: " ++ name

-- The package's directory has the name that is looked up, which has no slash in it.
abbrev pub load_config : Text → Option MetaConfig → Result Package
load_config name none = err (Exception.value_error (no_metadata name))
load_config name (some config) = new_package name config

-- all_recipes[name], made a package
unfoldable pub load_package : Dict Text MetaConfig → Text → Result Package
load_package all_recipes name = load_config name (lookup name all_recipes)

module _ (set : SetPop) (all_recipes : Dict Text MetaConfig) where
  -- `while packages`, for as many rounds as there are recipes and one more.
  unfoldable pub collect : ℕ → List Text → PackageMap → Result PackageMap
  unfolding load_package add_missing
  collect fuel [] pkg_map = ok pkg_map
  collect zero (a ∷ s) pkg_map = err Exception.no_fuel
  collect (suc fuel) (a ∷ s) pkg_map = do
    let pkgname = set.choose a s
    pkg ← load_package all_recipes pkgname
    let pkg_map' = put pkgname pkg pkg_map
    collect fuel (add_missing pkg.dependencies pkg_map' (discard pkgname (a ∷ s))) pkg_map'

-- graph[pkgname] = pkg.dependencies, for the packages collected
unfoldable pub graph_of : PackageMap → DependencyGraph
graph_of [] = []
graph_of ((name, pkg) ∷ m) = (name, pkg.dependencies) ∷ graph_of m
