-- ===== src/Buildall/Tests/Graphs.antt =====
-- Queries and graphs.
use pyodide.Base.{
  ℕ, suc, Text, codes, text_beq, ◌≡◌, refl, Bool, true, false, ◌&&◌, List, [], ◌∷◌, Option, some,
  elem, length, text_eq, eqb, arith, eq_of_beq, Result, ok, err, Exception, ◌⊎◌,
}
use pyodide.Base.Set.{add, discard}
use pyodide.Base.Dict.{Dict, lookup, values, put}
use pyodide.Base.Strings.Methods.{remove_prefix, starts_with, slice_from, split, strip}
use pyodide.Buildall.Package.{MetaConfig, PackageMap, package_from, python_package}
use pyodide.Buildall.Recipes.{load_all_recipes, load_recipes}
use pyodide.Buildall.Recipes.Laws.{Loads, load_recipes_lem}
use pyodide.Buildall.Graph.Validate.{validate_package_map}
use pyodide.Buildall.Graph.Validate.Laws.{is_valid, validate_package_map_lem}
use pyodide.Buildall.Query.{Query, parse_package_query, query_names}
use pyodide.Buildall.Query.Laws.{is_plain, bang, parse_package_query_lem}
use pyodide.Buildall.Graph.Collect.{collect}
use pyodide.Buildall.Graph.Collect.Laws.{IsNamed, Collects, collect_lem}
use pyodide.Buildall.Graph.Generate.{select_graph, no_numpy_name}
use pyodide.Buildall.Graph.Generate.Laws.{Selects, select_graph_lem}
use pyodide.Buildall.Tests.Samples.{recipe, recipes, first_of_set, sorter}

abbrev spaces : ℕ → Bool
spaces c = eqb c 32

abbrev query : Query
query = Query.text (codes "a, !c")

query_run : parse_package_query spaces query ≡ (codes "a" ∷ [], codes "c" ∷ [])
unfolding parse_package_query codes split strip text_beq starts_with slice_from elem add
query_run = refl

parse_package_query_lem_example :
    (elem (codes "a") (parse_package_query spaces query).0
      ≡ (elem (codes "a") (query_names spaces query) && is_plain (codes "a")))
    × (elem (codes "a") (parse_package_query spaces query).1
        ≡ elem (bang (codes "a")) (query_names spaces query))
parse_package_query_lem_example = parse_package_query_lem spaces query (codes "a")

recipes-IsNamed : IsNamed recipes
unfolding lookup
recipes-IsNamed a c h =
    ground
      (arith, eq_of_beq a (codes "scipy"), eq_of_beq a (codes "numpy"), eq_of_beq a (codes "blas"))

collect_lem_example :
    Collects recipes
      (codes "scipy" ∷ [])
      (collect first_of_set recipes (suc (length recipes)) (codes "scipy" ∷ []) [])
collect_lem_example = collect_lem first_of_set recipes (codes "scipy" ∷ []) recipes-IsNamed

select_graph_lem_example :
    Selects recipes
      (discard no_numpy_name (codes "scipy" ∷ []))
      []
      (elem no_numpy_name (codes "scipy" ∷ []))
      (select_graph first_of_set sorter recipes (codes "scipy" ∷ []) [])
select_graph_lem_example =
    select_graph_lem first_of_set sorter recipes (codes "scipy" ∷ []) [] recipes-IsNamed

abbrev packages : PackageMap
packages =
    (codes "scipy", package_from (recipe (codes "scipy") python_package (codes "numpy" ∷ []) []))
    ∷ (codes "numpy", package_from (recipe (codes "numpy") python_package [] []))
    ∷ []

abbrev found : Text → Option Text
found exe = some exe

validate_package_map_lem_example :
    ((is_valid found packages ≡ true) × (validate_package_map found packages ≡ ok true))
    ⊎ ((is_valid found packages ≡ false)
        × ((x : Exception) × (validate_package_map found packages ≡ err x)))
validate_package_map_lem_example = validate_package_map_lem found packages

abbrev with_tag : Text → Text → MetaConfig
with_tag name tag = record {
  package_spec = record {
    name = name;
    version = codes "1";
    top_level = [];
    tag = tag ∷ [];
    disabled = false;
  };
  package_type = python_package;
  requirements = record { run = []; host = []; executable = [] };
}

abbrev files : List (Text × Result MetaConfig)
files =
    (codes "micropip/meta.yaml", ok (with_tag (codes "micropip") (codes "always")))
    ∷ (codes "numpy/meta.yaml", ok (with_tag (codes "numpy") (codes "core")))
    ∷ []

abbrev available : Dict Text MetaConfig
available =
    (codes "micropip", with_tag (codes "micropip") (codes "always"))
    ∷ (codes "numpy", with_tag (codes "numpy") (codes "core"))
    ∷ []

files_run : load_all_recipes files ≡ ok available
unfolding load_all_recipes codes text_beq put
files_run = refl

tag_run :
    load_recipes available (codes "tag:core" ∷ []) true
    ≡ ok (
        (codes "numpy", some (with_tag (codes "numpy") (codes "core")))
        ∷ (codes "micropip", some (with_tag (codes "micropip") (codes "always")))
        ∷ [])
unfolding load_recipes codes text_beq lookup put values starts_with remove_prefix slice_from
tag_run = refl

load_recipes_lem_example :
    Loads available
      (codes "tag:core" ∷ [])
      true
      (load_recipes available (codes "tag:core" ∷ []) true)
load_recipes_lem_example = load_recipes_lem files available (codes "tag:core" ∷ []) true files_run
