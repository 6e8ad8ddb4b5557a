-- ===== src/Buildall/Query/Laws.antt =====
-- What a query requests and disables.
use pyodide.Base.{
  ℕ, Text, codes, ◌≡◌, refl, Bool, false, not, ◌&&◌, ◌||◌, List, [], ◌∷◌, elem, ◌==◌, text_eq,
  arith, eq_of_beq, text_beq,
}
use pyodide.Base.Strings.Methods.{starts_with, slice_from}
use pyodide.Base.Set.{elem-add}
use pyodide.Buildall.Query.{Query, query_names, query_step, query_loop, parse_package_query}

abbrev pub bang : Text → Text
bang a = b'!' ∷ a

-- A name is added to `requested` unless it is empty or begins with `!`.
abbrev pub is_plain : Text → Bool
is_plain a = not (a == []) && not (starts_with a (codes "!"))

step_requested :
    (a name : Text) (s : List Text × List Text)
    → elem a (query_step name s).0 ≡ ((a == name && is_plain a) || elem a s.0)
unfolding query_step
step_requested a [] s = ground (arith, eq_of_beq a [])
step_requested a (c ∷ name) s =
    ground (arith, elem-add a (c ∷ name) s.0, eq_of_beq a (c ∷ name), not_empty c name)
  where
    not_empty : (d : ℕ) (n : Text) → (d ∷ n == []) ≡ false
    not_empty d n = unfold text_beq in refl

step_disabled :
    (a name : Text) (s : List Text × List Text)
    → elem a (query_step name s).1 ≡ (bang a == name || elem a s.1)
unfolding query_step text_beq starts_with slice_from codes
step_disabled a [] s = refl
step_disabled a (c ∷ name) s = ground (arith, elem-add a name s.1)

loop_requested :
    (a : Text) (l : List Text) (s : List Text × List Text)
    → elem a (query_loop l s).0 ≡ ((elem a l && is_plain a) || elem a s.0)
unfolding query_loop elem
loop_requested a [] s = refl
loop_requested a (name ∷ l) s =
    ground (arith, loop_requested a l (query_step name s), step_requested a name s)

loop_disabled :
    (a : Text) (l : List Text) (s : List Text × List Text)
    → elem a (query_loop l s).1 ≡ (elem (bang a) l || elem a s.1)
unfolding query_loop elem
loop_disabled a [] s = refl
loop_disabled a (name ∷ l) s =
    ground (arith, loop_disabled a l (query_step name s), step_disabled a name s)

-- A name is requested exactly if the query names it, it is not empty and does not begin with `!`; it is
-- disabled exactly if the query has it with a `!` before it.
pub parse_package_query_lem :
    (space : ℕ → Bool) (query : Query) (a : Text)
    → (elem a (parse_package_query space query).0
        ≡ (elem a (query_names space query) && is_plain a))
      × (elem a (parse_package_query space query).1 ≡ elem (bang a) (query_names space query))
unfolding parse_package_query elem
parse_package_query_lem space query a =
    let l = query_names space query in
    (ground (arith, loop_requested a l ([], [])), ground (arith, loop_disabled a l ([], [])))
