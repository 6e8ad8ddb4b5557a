-- ===== src/Base/Totals.antt =====
-- Sums over lists, and predicates of all elements of an append.
use Prim.Native.Nat.{ℕ, ◌+◌, ◌≤◌}
use mathlib.Core.Path.{◌≡◌, refl}
use mathlib.Core.List.{List, [], ◌∷◌, ◌++◌}
use native.Mathlib.Omega.{arith}
use pyodide.Base.Lists.{All}

module _ {ℓ} {A : Type ℓ} where
  unfoldable pub total : (A → ℕ) → List A → ℕ
  total f [] = 0
  total f (a ∷ l) = f a + total f l

  pub total-append : (f : A → ℕ) (xs ys : List A) → total f (xs ++ ys) ≡ total f xs + total f ys
  unfolding total
  total-append f [] ys = omega arith
  total-append f (a ∷ xs) ys = omega (arith, total-append f xs ys)

  pub total-split :
      (f : A → ℕ) (xs : List A) (a : A) (ys : List A)
      → total f (xs ++ a ∷ ys) ≡ f a + total f (xs ++ ys)
  unfolding total
  total-split f [] a ys = refl
  total-split f (b ∷ xs) a ys = omega (arith, total-split f xs a ys)

  pub All-split {κ} :
      (P : A → Type κ) (xs : List A) (a : A) (ys : List A)
      → All P (xs ++ a ∷ ys)
      → P a × All P (xs ++ ys)
  All-split P [] a ys h = h
  All-split P (b ∷ xs) a ys (p, h) = let (q, r) = All-split P xs a ys h in (q, (p, r))

  pub All-append {κ} : (P : A → Type κ) (xs ys : List A) → All P xs → All P ys → All P (xs ++ ys)
  All-append P [] ys h k = k
  All-append P (a ∷ xs) ys (p, h) k = (p, All-append P xs ys h k)

  pub All-insert {κ} :
      (P : A → Type κ) (xs : List A) (a : A) (ys : List A)
      → P a
      → All P (xs ++ ys)
      → All P (xs ++ a ∷ ys)
  All-insert P [] a ys p h = (p, h)
  All-insert P (b ∷ xs) a ys p (q, h) = (q, All-insert P xs a ys p h)

  pub total-le : (f g : A → ℕ) (xs : List A) → ((a : A) → f a ≤ g a) → total f xs ≤ total g xs
  unfolding total
  total-le f g [] h = omega arith
  total-le f g (a ∷ xs) h = omega (arith, h a, total-le f g xs h)
