-- ===== src/Buildall/Graph/Select/Dependents.antt =====
-- What `add_host_dependent` changes.
use pyodide.Base.{
  Text, ◌≡◌, refl, ◌&&◌, ◌||◌, List, [], ◌∷◌, Option, none, some, elem, elem-cons, elem-nil, ◌==◌,
  text_eq, eq_of_beq, beq_refl, arith, ok,
}
use pyodide.Base.Set.{add, elem-add}
use pyodide.Base.Dict.{lookup, put, lookup-put}
use pyodide.Buildall.Package.{Package, PackageMap}
use pyodide.Buildall.Graph.Disable.Laws.{AllPresent, present-some, get_item-some}
use pyodide.Buildall.Graph.Select.{add_host_dependent}

-- The package but for its host dependents.
abbrev pub undepended : Option Package → Option Package
undepended none = none
undepended (some p) = some (record p { host_dependents = [] })

abbrev pub dependents_of : Option Package → List Text
dependents_of none = []
dependents_of (some p) = p.host_dependents

pub record Adds (name : Text) (deps : List Text) (m m' : PackageMap) : Type 0 where
  pub same : (x : Text) → undepended (lookup x m') ≡ undepended (lookup x m)
  pub dependents :
      (a x : Text)
      → elem a (dependents_of (lookup x m'))
        ≡ ((a == name && elem x deps) || elem a (dependents_of (lookup x m)))

Adds-cons :
    (name d : Text) (deps : List Text) (m m' : PackageMap) (p : Package)
    → lookup d m ≡ some p
    → Adds name deps (put d (record p { host_dependents = add name p.host_dependents }) m) m'
    → Adds name (d ∷ deps) m m'
Adds-cons name d deps m m' p found h =
    let q = record p { host_dependents = add name p.host_dependents } in
    record {
      same = λ x. ground (arith, h.same x, lookup-put x d q m, eq_of_beq x d);
      dependents = λ a x. ground (
        arith,
        h.dependents a x,
        lookup-put x d q m,
        eq_of_beq x d,
        elem-cons x d deps,
        elem-add a name p.host_dependents,
      );
    }

pub add_host_dependent-Adds :
    (name : Text) (deps : List Text) (m : PackageMap)
    → AllPresent deps m
    → (m' : PackageMap) × (add_host_dependent name deps m ≡ ok m') × Adds name deps m m'
unfolding add_host_dependent
add_host_dependent-Adds name [] m h =
    (m, refl, record { same = λ x. refl; dependents = λ a x. ground (arith, elem-nil x) })
add_host_dependent-Adds name (d ∷ deps) m h =
    let (p, found) = present-some d m (h d (ground (arith, elem-cons d d deps, beq_refl d))) in
    let q = record p { host_dependents = add name p.host_dependents } in
    let (m', run, adds) =
      add_host_dependent-Adds name deps (put d q m)
        (λ x e. ground (arith, lookup-put x d q m, h x, elem-cons x d deps)) in
    (m', rw (get_item-some d m found) run, Adds-cons name d deps m m' p found adds)
