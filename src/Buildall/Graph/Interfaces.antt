-- ===== src/Buildall/Graph/Interfaces.antt =====
-- What the graph code takes from Python's library.
use pyodide.Base.{Text, true, false, ◌≡◌, ◌⊎◌, List, [], ◌∷◌, Option, none, some, elem, text_eq}
use pyodide.Base.Dict.{Dict, keys, lookup}

abbrev pub DependencyGraph : Type 0
DependencyGraph = Dict Text (List Text)

-- set.pop on a set with the element `first`: some element of the set.
pub record SetPop : Type 0 where
  pub choose : (first : Text) (others : List Text) → Text
  pub choose_elem :
      (first : Text) (others : List Text) → elem (choose first others) (first ∷ others) ≡ true

abbrev pub dependencies_in : DependencyGraph → Text → List Text
dependencies_in graph name = elim (lookup name graph) [ none ↦ [] | some deps ↦ deps ]

-- Each name stands once, behind its dependencies; `seen` are the names before the list.
abbrev pub IsStaticOrder : DependencyGraph → List Text → List Text → Type 0
IsStaticOrder graph seen [] = Unit
IsStaticOrder graph seen (a ∷ l) =
    (elem a seen ≡ false)
    × ((d : Text) → elem d (dependencies_in graph a) ≡ true → elem d seen ≡ true)
    × IsStaticOrder graph (a ∷ seen) l

-- TopologicalSorter(graph).static_order(); none stands for CycleError. The order holds the nodes of
-- the graph: its keys and their dependencies.
pub record Sorter : Type 0 where
  pub static_order : DependencyGraph → Option (List Text)
  pub sorted :
      (graph : DependencyGraph) (l : List Text)
      → static_order graph ≡ some l
      → IsStaticOrder graph [] l
  pub complete :
      (graph : DependencyGraph) (l : List Text) (a : Text)
      → static_order graph ≡ some l
      → elem a (keys graph) ≡ true
      → elem a l ≡ true
  pub sound :
      (graph : DependencyGraph) (l : List Text) (a : Text)
      → static_order graph ≡ some l
      → elem a l ≡ true
      → (elem a (keys graph) ≡ true) ⊎ ((b : Text) × (elem a (dependencies_in graph b) ≡ true))
