-- ===== src/Base/Strings/Order.antt =====
-- The order of `str` and Python's `sorted`.
use mathlib.Core.Path.{◌≡◌, refl, ◌∙◌}
use mathlib.Core.Bool.{Bool, true, false, ◌&&◌, ◌||◌}
use mathlib.Core.List.{List, [], ◌∷◌}
use mathlib.Core.Logic.{inl, inr}
use native.Mathlib.Omega.{arith}
use pyodide.Base.Tests.{ltb, eqb, if◌then◌else◌, Bool-cases}
use pyodide.Base.Equality.{◌==◌}
use pyodide.Base.Lists.{elem}
use pyodide.Base.Strings.{Text, text_beq, text_eq}

-- The order of Python's `str`, by code points.
unfoldable pub text_lt : Text → Text → Bool
text_lt [] [] = false
text_lt [] (b ∷ t) = true
text_lt (a ∷ s) [] = false
text_lt (a ∷ s) (b ∷ t) = ltb a b || (eqb a b && text_lt s t)

unfoldable pub insert_sorted : Text → List Text → List Text
unfolding text_lt
insert_sorted a [] = a ∷ []
insert_sorted a (x ∷ xs) =
    let rest = insert_sorted a xs in if text_lt x a then x ∷ rest else a ∷ x ∷ xs

-- sorted(s)
unfoldable pub sort : List Text → List Text
unfolding insert_sorted
sort [] = []
sort (x ∷ xs) = insert_sorted x (sort xs)

elem-insert_sorted :
    (name a : Text) (xs : List Text) → elem name (insert_sorted a xs) ≡ (name == a || elem name xs)
unfolding insert_sorted elem
elem-insert_sorted name a [] = refl
elem-insert_sorted name a (x ∷ xs) = ground (arith, elem-insert_sorted name a xs)

pub elem-sort : (name : Text) (xs : List Text) → elem name (sort xs) ≡ elem name xs
unfolding sort elem
elem-sort name [] = refl
elem-sort name (x ∷ xs) = ground (arith, elem-insert_sorted name x (sort xs), elem-sort name xs)

text_lt_trans : (s t u : Text) → text_lt s t ≡ true → text_lt t u ≡ true → text_lt s u ≡ true
unfolding text_lt
text_lt_trans [] [] u h k = cc
text_lt_trans [] (b ∷ t) [] h k = cc
text_lt_trans [] (b ∷ t) (c ∷ u) h k = refl
text_lt_trans (a ∷ s) [] u h k = cc
text_lt_trans (a ∷ s) (b ∷ t) [] h k = cc
text_lt_trans (a ∷ s) (b ∷ t) (c ∷ u) h k = ground (arith, text_lt_trans s t u)

text_lt_total : (s t : Text) → text_lt s t ≡ false → text_beq s t ≡ false → text_lt t s ≡ true
unfolding text_lt text_beq
text_lt_total [] [] h k = cc
text_lt_total [] (b ∷ t) h k = cc
text_lt_total (a ∷ s) [] h k = refl
text_lt_total (a ∷ s) (b ∷ t) h k = ground (arith, text_lt_total s t)

-- In strictly increasing order.
abbrev pub Above : Text → List Text → Type 0
Above a [] = Unit
Above a (x ∷ xs) = text_lt a x ≡ true

abbrev pub Increasing : List Text → Type 0
Increasing [] = Unit
Increasing (x ∷ xs) = Above x xs × Increasing xs

-- No element twice.
abbrev pub Distinct : List Text → Type 0
Distinct [] = Unit
Distinct (x ∷ xs) = (elem x xs ≡ false) × Distinct xs

Above-insert_sorted :
    (b a : Text) (xs : List Text) → text_lt b a ≡ true → Above b xs → Above b (insert_sorted a xs)
unfolding insert_sorted
Above-insert_sorted b a [] h k = h
Above-insert_sorted b a (x ∷ xs) h k = elim (Bool-cases (text_lt x a)) [
  | inl less ↦ rw less k
  | inr other ↦ rw other h
]

insert_sorted-Increasing :
    (a : Text) (xs : List Text)
    → elem a xs ≡ false
    → Increasing xs
    → Increasing (insert_sorted a xs)
unfolding insert_sorted elem
insert_sorted-Increasing a [] h k = (tt, tt)
insert_sorted-Increasing a (x ∷ xs) h (above, k) = elim (Bool-cases (text_lt x a)) [
  | inl less ↦
      rw less
        (Above-insert_sorted x a xs less above, insert_sorted-Increasing a xs (ground arith) k)
  | inr other ↦ rw other (
    text_lt_total x a other (ground (arith, text_eq.beq_iff x a, text_eq.beq_iff a x)),
    (above, k),
  )
]

pub sort-Increasing : (xs : List Text) → Distinct xs → Increasing (sort xs)
unfolding sort
sort-Increasing [] d = tt
sort-Increasing (x ∷ xs) (new, d) =
    insert_sorted-Increasing x (sort xs) (elem-sort x xs ∙ new) (sort-Increasing xs d)
