-- ===== src/Base/Dict.antt =====
-- Python's `dict` as an association list in insertion order.
use mathlib.Core.Path.{◌≡◌, refl}
use mathlib.Core.Bool.{Bool, true, false, ◌||◌}
use mathlib.Core.List.{List, [], ◌∷◌}
use mathlib.Core.Option.{Option, none, some}
use mathlib.Core.Logic.{inl, inr}
use native.Mathlib.Omega.{arith}
use pyodide.Base.Tests.{if◌then◌else◌, Bool-cases}
use pyodide.Base.Equality.{Eq, ◌==◌}
use pyodide.Base.Lists.{elem}

abbrev pub Dict {ℓ κ} : Type ℓ → Type κ → Type (ℓ ⊔ κ)
Dict K V = List (K × V)

module _ {ℓ κ} {K : Type ℓ} {V : Type κ} where
  unfoldable pub keys : Dict K V → List K
  keys [] = []
  keys ((k, v) ∷ m) = k ∷ keys m

  unfoldable pub values : Dict K V → List V
  values [] = []
  values ((k, v) ∷ m) = v ∷ values m

module _ {ℓ κ} {K : Type ℓ} {V : Type κ} ⦃e : Eq K⦄ where
  -- m.get(k)
  unfoldable pub lookup : K → Dict K V → Option V
  lookup k [] = none
  lookup k ((j, v) ∷ m) = if k == j then some v else lookup k m

  -- m[k] = v: a key keeps its place
  unfoldable pub put : K → V → Dict K V → Dict K V
  put k v [] = (k, v) ∷ []
  put k v ((j, w) ∷ m) = if k == j then (j, v) ∷ m else (j, w) ∷ put k v m

  -- k in m
  abbrev pub present : K → Dict K V → Bool
  present k m = elim (lookup k m) [ none ↦ false | some v ↦ true ]

  pub elem-keys : (k : K) (m : Dict K V) → elem k (keys m) ≡ present k m
  unfolding lookup keys elem
  elem-keys k [] = refl
  elem-keys k ((j, v) ∷ m) = ground (arith, elem-keys k m)

  pub lookup-put :
      (j k : K) (v : V) (m : Dict K V)
      → lookup j (put k v m) ≡ (if j == k then some v else lookup j m)
  unfolding lookup put
  lookup-put j k v [] = refl
  lookup-put j k v ((i, w) ∷ m) =
      ground (arith, e.beq_iff j k, e.beq_iff k i, e.beq_iff j i, lookup-put j k v m)

  pub elem-keys-put :
      (j k : K) (v : V) (m : Dict K V) → elem j (keys (put k v m)) ≡ (j == k || elem j (keys m))
  unfolding put keys elem
  elem-keys-put j k v [] = refl
  elem-keys-put j k v ((i, w) ∷ m) =
      ground (arith, e.beq_iff j k, e.beq_iff k i, e.beq_iff j i, elem-keys-put j k v m)

  pub lookup-of_elem :
      (k : K) (m : Dict K V) → elem k (keys m) ≡ true → (v : V) × (lookup k m ≡ some v)
  unfolding lookup keys elem
  lookup-of_elem k [] h = cc
  lookup-of_elem k ((j, v) ∷ m) h = elim (Bool-cases (k == j)) [
    | inl same ↦ (v, rw same)
    | inr other ↦ let (w, found) = lookup-of_elem k m (ground arith) in (w, rw other found)
  ]
