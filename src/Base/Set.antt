-- ===== src/Base/Set.antt =====
-- Python's `set` as a list of its elements, each once. Where the program depends on the order of
-- iteration, which Python leaves open, the order is a parameter of the model.
use mathlib.Core.Path.{◌≡◌, refl}
use mathlib.Core.Bool.{not, ◌&&◌, ◌||◌}
use mathlib.Core.List.{List, [], ◌∷◌}
use native.Mathlib.Omega.{arith}
use pyodide.Base.Tests.{if◌then◌else◌}
use pyodide.Base.Equality.{Eq, ◌==◌}
use pyodide.Base.Lists.{elem, filter, elem-filter}

module _ {ℓ} {A : Type ℓ} ⦃e : Eq A⦄ where
  -- s.add(a)
  unfoldable pub add : A → List A → List A
  unfolding elem
  add a s = if elem a s then s else a ∷ s

  -- s.discard(a)
  unfoldable pub discard : A → List A → List A
  unfolding filter
  discard a s = filter (λ x. not (x == a)) s

  -- s.update(xs), and set(xs) from the empty set
  unfoldable pub update : List A → List A → List A
  unfolding add
  update [] s = s
  update (x ∷ xs) s = update xs (add x s)

  -- s.difference(t)
  unfoldable pub difference : List A → List A → List A
  unfolding filter elem
  difference s t = filter (λ x. not (elem x t)) s

  pub elem-add : (b a : A) (s : List A) → elem b (add a s) ≡ (b == a || elem b s)
  unfolding add elem
  elem-add b a s = ground (arith, e.beq_iff b a)

  pub elem-discard : (b a : A) (s : List A) → elem b (discard a s) ≡ (elem b s && not (b == a))
  unfolding discard
  elem-discard b a s = elem-filter (λ x. not (x == a)) b s

  pub elem-update : (b : A) (xs s : List A) → elem b (update xs s) ≡ (elem b xs || elem b s)
  unfolding update elem
  elem-update b [] s = refl
  elem-update b (x ∷ xs) s = ground (arith, elem-update b xs (add x s), elem-add b x s)

  pub elem-difference :
      (b : A) (s t : List A) → elem b (difference s t) ≡ (elem b s && not (elem b t))
  unfolding difference
  elem-difference b s t = elem-filter (λ x. not (elem x t)) b s
