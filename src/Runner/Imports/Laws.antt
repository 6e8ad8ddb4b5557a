-- ===== src/Runner/Imports/Laws.antt =====
-- What `find_imports` finds.
use pyodide.Base.{
  Text, ◌≡◌, refl, Bool, false, ◌||◌, ◌==◌, List, [], ◌∷◌, Option, none, some, elem, elem-nil, any,
  nat_eq, text_eq, arith, Bool-cases, inl, inr,
}
use pyodide.Base.Set.{add, elem-add}
use pyodide.Base.Strings.Order.{elem-sort, Increasing, Distinct, sort-Increasing}
use pyodide.Runner.Imports.{
  Node, import_node, import_from, other_node, stem_of, add_stems, walk, find_imports,
}

-- A node imports a module whose first part is the name.
unfoldable pub names_stem : Text → Node → Bool
unfolding stem_of any
names_stem name (import_node names) = any (λ n. name == stem_of n) names
names_stem name (import_from none) = false
names_stem name (import_from (some n)) = name == stem_of n
names_stem name other_node = false

elem-add_stems :
    (name : Text) (names imports : List Text)
    → elem name (add_stems names imports)
      ≡ (any (λ n. name == stem_of n) names || elem name imports)
unfolding add_stems any
elem-add_stems name [] imports = refl
elem-add_stems name (n ∷ names) imports =
    ground (
      arith,
      elem-add_stems name names (add (stem_of n) imports),
      elem-add name (stem_of n) imports,
    )

elem-walk :
    (name : Text) (nodes : List Node) (imports : List Text)
    → elem name (walk nodes imports) ≡ (any (names_stem name) nodes || elem name imports)
unfolding walk any names_stem
elem-walk name [] imports = refl
elem-walk name (import_node names ∷ nodes) imports =
    ground
      (arith, elem-walk name nodes (add_stems names imports), elem-add_stems name names imports)
elem-walk name (import_from none ∷ nodes) imports = elem-walk name nodes imports
elem-walk name (import_from (some n) ∷ nodes) imports =
    ground
      (arith, elem-walk name nodes (add (stem_of n) imports), elem-add name (stem_of n) imports)
elem-walk name (other_node ∷ nodes) imports = elem-walk name nodes imports

add-Distinct : (a : Text) (s : List Text) → Distinct s → Distinct (add a s)
unfolding add
add-Distinct a s d = elim (Bool-cases (elem a s)) [
  | inl there ↦ rw there d
  | inr new ↦ rw new (new, d)
]

add_stems-Distinct :
    (names imports : List Text) → Distinct imports → Distinct (add_stems names imports)
unfolding add_stems
add_stems-Distinct [] imports d = d
add_stems-Distinct (n ∷ names) imports d =
    add_stems-Distinct names (add (stem_of n) imports) (add-Distinct (stem_of n) imports d)

walk-Distinct :
    (nodes : List Node) (imports : List Text) → Distinct imports → Distinct (walk nodes imports)
unfolding walk
walk-Distinct [] imports d = d
walk-Distinct (import_node names ∷ nodes) imports d =
    walk-Distinct nodes (add_stems names imports) (add_stems-Distinct names imports d)
walk-Distinct (import_from none ∷ nodes) imports d = walk-Distinct nodes imports d
walk-Distinct (import_from (some n) ∷ nodes) imports d =
    walk-Distinct nodes (add (stem_of n) imports) (add-Distinct (stem_of n) imports d)
walk-Distinct (other_node ∷ nodes) imports d = walk-Distinct nodes imports d

-- A source that does not parse has no imports. Of one that parses, the result is in strictly increasing
-- order, and it has a name exactly if a node imports, or imports from, a module of which it is the first
-- part.
pub find_imports_lem :
    (dedent : Text → Text) (parse : Text → Option (List Node)) (source : Text)
    → (parse (dedent source) ≡ none → find_imports dedent parse source ≡ [])
      × ((nodes : List Node)
          → parse (dedent source) ≡ some nodes
          → Increasing (find_imports dedent parse source)
            × ((name : Text)
                → elem name (find_imports dedent parse source) ≡ any (names_stem name) nodes))
unfolding find_imports
find_imports_lem dedent parse source = (
  λ h. rw (h, find_imports) refl,
  λ nodes h.
      rw (h, find_imports)
        (
          sort-Increasing (walk nodes []) (walk-Distinct nodes [] tt),
          λ name.
              ground
                (arith, elem-sort name (walk nodes []), elem-walk name nodes [], elem-nil name),
        ),
)
