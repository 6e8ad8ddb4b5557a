-- ===== src/Buildall/Query.antt =====
-- `_parse_package_query` of buildall.py: the packages that a query requests and disables.
pub mod Laws
use pyodide.Base.{
  ℕ, Text, codes, text_eq, Bool, true, false, List, [], ◌∷◌, ◌++◌, map, length, ltb, eqb,
  if◌then◌else◌,
}
use pyodide.Base.Strings.Methods.{starts_with, slice_from, split, strip, join}
use pyodide.Base.Set.{add}

-- None, a text or a list.
pub data Query : Type 0 where
  absent : Query
  text : Text → Query
  names : List Text → Query

-- `if not query`, and the split of a text at its commas
unfoldable pub query_names : (ℕ → Bool) → Query → List Text
query_names space absent = []
query_names space (text []) = []
query_names space (text (c ∷ s)) = map (strip space) (split b',' (c ∷ s))
query_names space (names l) = l

-- One round of the loop, on `(requested, disabled)`.
unfoldable pub query_step : Text → List Text × List Text → List Text × List Text
query_step [] (requested, disabled) = (requested, disabled)
query_step (c ∷ name) (requested, disabled) =
    if starts_with (c ∷ name) (codes "!")
    then (requested, add (slice_from 1 (c ∷ name)) disabled)
    else (add (c ∷ name) requested, disabled)

unfoldable pub query_loop : List Text → List Text × List Text → List Text × List Text
unfolding query_step
query_loop [] s = s
query_loop (name ∷ l) s = query_loop l (query_step name s)

unfoldable pub parse_package_query : (ℕ → Bool) → Query → List Text × List Text
unfolding query_names query_loop
parse_package_query space query = query_loop (query_names space query) ([], [])
