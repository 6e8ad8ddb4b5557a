-- ===== src/Base/Lists.antt =====
-- Lists: Python's `in`, comprehensions with a test, `any`, `all`, and lengths over the native numbers.
use Prim.Native.Nat.{ℕ, suc, ◌+◌, ◌≤◌, ◌<◌}
use mathlib.Core.Path.{◌≡◌, refl}
use mathlib.Core.Bool.{Bool, true, false, ◌&&◌, ◌||◌}
use mathlib.Core.List.{List, [], ◌∷◌, ◌++◌, reverse, reverse_aux}
use native.Mathlib.Omega.{arith}
use pyodide.Base.Tests.{if◌then◌else◌}
use pyodide.Base.Equality.{Eq, ◌==◌}

module _ {ℓ} {A : Type ℓ} where
  abbrev pub length : List A → ℕ
  length [] = 0
  length (x ∷ xs) = suc (length xs)

  pub length-append : (xs ys : List A) → length (xs ++ ys) ≡ length xs + length ys
  length-append [] ys = omega arith
  length-append (x ∷ xs) ys = omega (arith, length-append xs ys)

  -- [x for x in xs if p x]
  unfoldable pub filter : (A → Bool) → List A → List A
  filter p [] = []
  filter p (x ∷ xs) = let rest = filter p xs in if p x then x ∷ rest else rest

  unfoldable pub any : (A → Bool) → List A → Bool
  any p [] = false
  any p (x ∷ xs) = p x || any p xs

  unfoldable pub all : (A → Bool) → List A → Bool
  all p [] = true
  all p (x ∷ xs) = p x && all p xs

  abbrev pub All {κ} : (A → Type κ) → List A → Type κ
  All P [] = Unit
  All P (x ∷ xs) = P x × All P xs

  pub all-filter : (p : A → Bool) (xs : List A) → all p (filter p xs) ≡ true
  unfolding all filter
  all-filter p [] = refl
  all-filter p (x ∷ xs) = ground (arith, all-filter p xs)

  pub filter-eq_of_all : (p : A → Bool) (xs : List A) → all p xs ≡ true → filter p xs ≡ xs
  unfolding all filter
  filter-eq_of_all p [] h = refl
  filter-eq_of_all p (x ∷ xs) h = ground (arith, filter-eq_of_all p xs)

  pub all-append : (p : A → Bool) (xs ys : List A) → all p (xs ++ ys) ≡ (all p xs && all p ys)
  unfolding all
  all-append p [] ys = refl
  all-append p (x ∷ xs) ys = ground (arith, all-append p xs ys)

  all-reverse_aux :
      (p : A → Bool) (xs ys : List A) → all p (reverse_aux xs ys) ≡ (all p xs && all p ys)
  unfolding all
  all-reverse_aux p [] ys = refl
  all-reverse_aux p (x ∷ xs) ys = ground (arith, all-reverse_aux p xs (x ∷ ys))

  pub all-reverse : (p : A → Bool) (xs : List A) → all p (reverse xs) ≡ all p xs
  unfolding all
  all-reverse p xs = ground (arith, all-reverse_aux p xs [])

  pub length-filter-le_all : (p : A → Bool) (xs : List A) → length (filter p xs) ≤ length xs
  unfolding filter
  length-filter-le_all p [] = omega arith
  length-filter-le_all p (x ∷ xs) = ground (arith, length-filter-le_all p xs)

  pub length-filter-le :
      (p q : A → Bool) (xs : List A)
      → ((a : A) → q a ≡ true → p a ≡ true)
      → length (filter q xs) ≤ length (filter p xs)
  unfolding filter
  length-filter-le p q [] h = omega arith
  length-filter-le p q (x ∷ xs) h = ground (arith, length-filter-le p q xs h, h x)

module _ {ℓ} {A : Type ℓ} ⦃e : Eq A⦄ where
  -- a in xs
  unfoldable pub elem : A → List A → Bool
  elem a [] = false
  elem a (x ∷ xs) = a == x || elem a xs

  unfoldable pub count : A → List A → ℕ
  count a [] = 0
  count a (x ∷ xs) = (if a == x then 1 else 0) + count a xs

  pub elem-nil : (a : A) → elem a [] ≡ false
  unfolding elem
  elem-nil a = refl

  pub elem-cons : (a x : A) (xs : List A) → elem a (x ∷ xs) ≡ (a == x || elem a xs)
  unfolding elem
  elem-cons a x xs = refl

  pub elem-append : (a : A) (xs ys : List A) → elem a (xs ++ ys) ≡ (elem a xs || elem a ys)
  unfolding elem
  elem-append a [] ys = refl
  elem-append a (x ∷ xs) ys = ground (arith, elem-append a xs ys)

  pub count-append : (a : A) (xs ys : List A) → count a (xs ++ ys) ≡ count a xs + count a ys
  unfolding count
  count-append a [] ys = omega arith
  count-append a (x ∷ xs) ys = omega (arith, count-append a xs ys)

  pub count-pos : (a : A) (xs : List A) → elem a xs ≡ true → 1 ≤ count a xs
  unfolding count elem
  count-pos a [] h = cc
  count-pos a (x ∷ xs) h = ground (arith, count-pos a xs)

  -- Of a list that has no element twice, the first is not among the others.
  pub count-head :
      (x : A) (xs : List A)
      → ((a : A) → count a (x ∷ xs) ≤ 1)
      → (elem x xs ≡ false) × ((a : A) → count a xs ≤ 1)
  unfolding count
  count-head x xs h = (ground (arith, h x, count-pos x xs, e.beq_iff x x), λ a. ground (arith, h a))

  pub count-singleton : (a b : A) → count a (b ∷ []) ≡ (if a == b then 1 else 0)
  unfolding count
  count-singleton a b = omega arith

  pub count-eq-zero : (a : A) (xs : List A) → elem a xs ≡ false → count a xs ≡ 0
  unfolding count elem
  count-eq-zero a [] h = refl
  count-eq-zero a (x ∷ xs) h = ground (arith, count-eq-zero a xs)

  pub elem-filter : (p : A → Bool) (a : A) (xs : List A) → elem a (filter p xs) ≡ (elem a xs && p a)
  unfolding elem filter
  elem-filter p a [] = refl
  elem-filter p a (x ∷ xs) = ground (arith, elem-filter p a xs, e.beq_iff a x)

  pub all-elem :
      (p : A → Bool) (a : A) (xs : List A) → all p xs ≡ true → elem a xs ≡ true → p a ≡ true
  unfolding elem all
  all-elem p a [] h m = cc
  all-elem p a (x ∷ xs) h m = ground (arith, all-elem p a xs, e.beq_iff a x)

  -- A stronger test that refuses one more element keeps fewer.
  pub length-filter-lt :
      (p q : A → Bool) (a : A) (xs : List A)
      → ((x : A) → q x ≡ true → p x ≡ true)
      → elem a xs ≡ true
      → p a ≡ true
      → q a ≡ false
      → length (filter q xs) < length (filter p xs)
  unfolding filter elem
  length-filter-lt p q a [] h m pa qa = cc
  length-filter-lt p q a (x ∷ xs) h m pa qa =
      ground (arith, length-filter-lt p q a xs h, length-filter-le p q xs h, h x, e.beq_iff a x)

  -- `any` reads a test at the elements only.
  pub any-congr :
      (f g : A → Bool) (xs : List A)
      → ((a : A) → elem a xs ≡ true → f a ≡ g a)
      → any f xs ≡ any g xs
  unfolding any elem
  any-congr f g [] h = refl
  any-congr f g (x ∷ xs) h =
      let first : f x ≡ g x = h x (ground (arith, e.beq_iff x x)) in
      let rest : any f xs ≡ any g xs = any-congr f g xs (λ a m. h a (ground arith)) in
      rw (first, rest)

  pub any-false :
      (p : A → Bool) (a : A) (xs : List A) → any p xs ≡ false → elem a xs ≡ true → p a ≡ false
  unfolding any elem
  any-false p a [] h m = cc
  any-false p a (x ∷ xs) h m = ground (arith, any-false p a xs, e.beq_iff a x)

  pub elem-reverse_aux :
      (a : A) (xs ys : List A) → elem a (reverse_aux xs ys) ≡ (elem a xs || elem a ys)
  unfolding elem
  elem-reverse_aux a [] ys = refl
  elem-reverse_aux a (x ∷ xs) ys = ground (arith, elem-reverse_aux a xs (x ∷ ys))

  pub elem-reverse : (a : A) (xs : List A) → elem a (reverse xs) ≡ elem a xs
  unfolding elem
  elem-reverse a xs = ground (arith, elem-reverse_aux a xs [])
