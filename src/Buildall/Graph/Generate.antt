-- ===== src/Buildall/Graph/Generate.antt =====
-- `generate_dependency_graph` of buildall.py: the loops together.
pub mod Ready
pub mod Final
pub mod Laws
use pyodide.Base.{
  ℕ, suc, Text, codes, Bool, true, false, List, [], ◌∷◌, Option, none, some, elem, length, text_eq,
  Result, ok, err, Exception, ◌>>=◌, ◌>>◌,
}
use mathlib.Core.List.{reverse}
use pyodide.Base.Set.{discard}
use pyodide.Base.Dict.{Dict}
use pyodide.Buildall.Package.{MetaConfig, PackageMap}
use pyodide.Buildall.Graph.Interfaces.{SetPop, Sorter}
use pyodide.Buildall.Graph.Collect.{collect, graph_of}
use pyodide.Buildall.Graph.Disable.{disable_all}
use pyodide.Buildall.Graph.Select.{Selection, select_loop, restrict}
use pyodide.Buildall.Graph.Validate.{validate_package_map}

abbrev pub or_cycle : Option (List Text) → Result (List Text)
or_cycle none = err Exception.cycle_error
or_cycle (some l) = ok l

abbrev pub no_numpy_name : Text
no_numpy_name = codes "no-numpy-dependents"

-- The second and the third loop, on the packages collected.
unfoldable pub select_collected :
    Sorter → List Text → List Text → Bool → PackageMap → Result PackageMap
select_collected sorter requested disabled no_numpy_dependents collected = do
  order ← or_cycle (sorter.static_order (graph_of collected))
  marked ← disable_all disabled no_numpy_dependents order collected
  s ←
      select_loop (reverse order)
        (record { requested_with_deps = requested; disabled_packages = []; pkg_map = marked })
  restrict s.requested_with_deps s.pkg_map

module _ (set : SetPop) (sorter : Sorter) (all_recipes : Dict Text MetaConfig) where
  -- From the recipes to the map that is validated.
  unfoldable pub select_graph : List Text → List Text → Result PackageMap
  unfolding select_collected
  select_graph requested disabled = do
    let no_numpy_dependents = elem no_numpy_name requested
    let requested' = discard no_numpy_name requested
    collected ← collect set all_recipes (suc (length all_recipes)) requested' []
    select_collected sorter requested' disabled no_numpy_dependents collected

  unfoldable pub generate_dependency_graph :
      (Text → Option Text) → List Text → List Text → Result PackageMap
  unfolding select_graph
  generate_dependency_graph which requested disabled = do
    pkg_map ← select_graph requested disabled
    valid ← validate_package_map which pkg_map
    ok pkg_map
