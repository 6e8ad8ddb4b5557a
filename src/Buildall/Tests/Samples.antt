-- ===== src/Buildall/Tests/Samples.antt =====
-- Three recipes, a set that pops its first element, and a topological sorter that checks its result.
use pyodide.Base.{
  ℕ, zero, suc, Text, codes, ◌≡◌, inl, Bool, true, false, not, ◌&&◌, List, [], ◌∷◌, ◌++◌, Option,
  none, some, elem, elem-cons, all, all-elem, filter, length, text_eq, beq_refl, arith,
  if◌then◌else◌,
}
use pyodide.Base.Dict.{Dict, keys}
use pyodide.Buildall.Package.{MetaConfig, BuildSpecType, python_package, static_library}
use pyodide.Buildall.Graph.Interfaces.{
  SetPop, Sorter, DependencyGraph, IsStaticOrder, dependencies_in,
}

abbrev pub recipe : Text → BuildSpecType → List Text → List Text → MetaConfig
recipe name type run host = record {
  package_spec = record {
    name = name;
    version = codes "1";
    top_level = [];
    tag = [];
    disabled = false;
  };
  package_type = type;
  requirements = record { run = run; host = host; executable = [] };
}

abbrev pub recipes : Dict Text MetaConfig
recipes =
    (codes "scipy", recipe (codes "scipy") python_package (codes "numpy" ∷ []) (codes "blas" ∷ []))
    ∷ (codes "numpy", recipe (codes "numpy") python_package [] [])
    ∷ (codes "blas", recipe (codes "blas") static_library [] [])
    ∷ []

pub first_of_set : SetPop
first_of_set = record {
  choose = λ first others. first;
  choose_elem = λ first others. ground (arith, elem-cons first first others, beq_refl first);
}

-- Rounds of the nodes whose dependencies are all placed.
rounds : ℕ → DependencyGraph → List Text → List Text → List Text
rounds zero graph placed pending = placed
rounds (suc n) graph placed pending =
    let ready = filter (λ a. all (λ d. elem d placed) (dependencies_in graph a)) pending in
    rounds n graph (placed ++ ready) (filter (λ a. not (elem a ready)) pending)

is_order : DependencyGraph → List Text → List Text → Bool
is_order graph seen [] = true
is_order graph seen (a ∷ l) =
    not (elem a seen)
    && (all (λ d. elem d seen) (dependencies_in graph a) && is_order graph (a ∷ seen) l)

is_order-IsStaticOrder :
    (graph : DependencyGraph) (seen l : List Text)
    → is_order graph seen l ≡ true
    → IsStaticOrder graph seen l
unfolding is_order
is_order-IsStaticOrder graph seen [] h = tt
is_order-IsStaticOrder graph seen (a ∷ l) h = (
  ground arith,
  λ d. all-elem (λ x. elem x seen) d (dependencies_in graph a) (ground arith),
  is_order-IsStaticOrder graph (a ∷ seen) l (ground arith),
)

checks : DependencyGraph → List Text → Bool
checks graph l =
    is_order graph [] l && (all (λ a. elem a l) (keys graph) && all (λ a. elem a (keys graph)) l)

candidate : DependencyGraph → List Text
unfolding rounds
candidate graph = rounds (suc (length graph)) graph [] (keys graph)

checked : DependencyGraph → List Text → Option (List Text)
unfolding checks
checked graph l = if checks graph l then some l else none

checked_sound :
    (graph : DependencyGraph) (c l : List Text)
    → checked graph c ≡ some l
    → (IsStaticOrder graph [] l)
      × (all (λ a. elem a l) (keys graph) ≡ true)
      × (all (λ a. elem a (keys graph)) l ≡ true)
unfolding checked
checked_sound graph c l h =
    (is_order-IsStaticOrder graph [] l (ground arith), ground arith, ground arith)

pub sorter : Sorter
unfolding candidate checked
sorter = record {
  static_order = λ graph. checked graph (candidate graph);
  sorted = λ graph l h. (checked_sound graph (candidate graph) l h).0;
  complete = λ graph l a h.
      all-elem (λ x. elem x l) a (keys graph) (checked_sound graph (candidate graph) l h).1;
  sound = λ graph l a h m.
      inl (all-elem (λ x. elem x (keys graph)) a l (checked_sound graph (candidate graph) l h).2 m);
}
