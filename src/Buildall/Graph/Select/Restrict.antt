-- ===== src/Buildall/Graph/Select/Restrict.antt =====
-- The map that the selection leaves.
use pyodide.Base.{
  Text, ◌≡◌, refl, List, [], ◌∷◌, none, some, elem, elem-cons, text_eq, eq_of_beq, beq_refl,
  if◌then◌else◌, arith, ok,
}
use pyodide.Base.Dict.{lookup}
use pyodide.Buildall.Package.{Package, PackageMap}
use pyodide.Buildall.Graph.Disable.Laws.{AllPresent, present-some, get_item-some}
use pyodide.Buildall.Graph.Select.{restrict}

-- The restricted map has the given names, with what they had.
pub restrict-lookup :
    (names : List Text) (m : PackageMap)
    → AllPresent names m
    → (r : PackageMap) × (restrict names m ≡ ok r)
      × ((a : Text) → lookup a r ≡ (if elem a names then lookup a m else none))
unfolding restrict
restrict-lookup [] m h = ([], refl, λ a. unfold elem lookup in refl)
restrict-lookup (b ∷ names) m h =
    let (p, found) = present-some b m (h b (ground (arith, elem-cons b b names, beq_refl b))) in
    let (r, run, looked) =
      restrict-lookup names m (λ d e. h d (ground (arith, elem-cons d b names))) in
    ((b, p) ∷ r, rw (get_item-some b m found) (rw run refl), λ a. looked_cons p r looked found a)
  where
    looked_cons :
        (p : Package) (r : PackageMap)
        → ((a : Text) → lookup a r ≡ (if elem a names then lookup a m else none))
        → lookup b m ≡ some p
        → (a : Text) → lookup a ((b, p) ∷ r) ≡ (if elem a (b ∷ names) then lookup a m else none)
    looked_cons p r looked found a =
        unfold lookup in ground (arith, looked a, eq_of_beq a b, elem-cons a b names)
