-- ===== src/Buildall/Graph/Disable/Laws.antt =====
-- Which packages the disabling loop disables.
use pyodide.Base.{
  Text, ◌≡◌, refl, sym, ap, subst, ◌∙◌, Bool, true, false, ◌||◌, List, [], ◌∷◌, Option, none, some,
  elem, elem-nil, elem-cons, any, any-congr, ◌==◌, text_eq, eq_of_beq, beq_refl, if◌then◌else◌,
  arith, Bool-cases, inl, inr, ok,
}
use pyodide.Base.Dict.{lookup, put, present, lookup-put}
use pyodide.Buildall.Package.{Package, PackageMap, get_item}
use pyodide.Buildall.Graph.Interfaces.{IsStaticOrder, dependencies_in}
use pyodide.Buildall.Graph.Collect.{graph_of}
use pyodide.Buildall.Graph.Disable.{any_disabled, excluded, disable_step, disable_all}

abbrev pub is_disabled : Text → PackageMap → Bool
is_disabled a m = elim (lookup a m) [ none ↦ false | some p ↦ p.disabled ]

-- The package but for the mark that the loop sets.
abbrev pub unmarked : Option Package → Option Package
unmarked none = none
unmarked (some p) = some (record p { disabled = false })

abbrev pub AllPresent : List Text → PackageMap → Type 0
AllPresent deps m = (d : Text) → elem d deps ≡ true → present d m ≡ true

pub get_item-some :
    (a : Text) (m : PackageMap) {p : Package} → lookup a m ≡ some p → get_item a m ≡ ok p
unfolding get_item
get_item-some a m h = rw h

abbrev pub deps_of : Option Package → List Text
deps_of none = []
deps_of (some p) = p.dependencies

pub any_disabled-eq :
    (deps : List Text) (m : PackageMap)
    → AllPresent deps m
    → any_disabled deps m ≡ ok (any (λ d. is_disabled d m) deps)
unfolding any_disabled any elem get_item
any_disabled-eq [] m h = refl
any_disabled-eq (d ∷ deps) m h =
    ground (arith, h d, beq_refl d, any_disabled-eq deps m (λ x member. h x (ground arith)))

module _ (disabled : List Text) (no_numpy : Bool) where
  -- The package `p`, named `b`, after its round.
  abbrev pub marked : Text → Package → PackageMap → Package
  marked b p m = record p {
    disabled =
        p.disabled || (excluded disabled no_numpy b p || any (λ d. is_disabled d m) p.dependencies);
  }

  abbrev pub newly : Text → Package → PackageMap → Bool
  newly b p m = excluded disabled no_numpy b p || any (λ d. is_disabled d m) p.dependencies

  disable_step-eq :
      (b : Text) (m : PackageMap) (p : Package)
      → lookup b m ≡ some p
      → AllPresent p.dependencies m
      → disable_step disabled no_numpy b m
        ≡ ok (if newly b p m then put b (record p { disabled = true }) m else m)
  unfolding disable_step
  disable_step-eq b m p found deps =
      rw (get_item-some b m found) (ground (arith, any_disabled-eq p.dependencies m deps))

  stepped-lookup :
      (b : Text) (m : PackageMap) (p : Package) (x : Text)
      → lookup b m ≡ some p
      → lookup x (if newly b p m then put b (record p { disabled = true }) m else m)
        ≡ (if x == b then some (marked b p m) else lookup x m)
  stepped-lookup b m p x found = elim (Bool-cases (newly b p m)) [
    | inl t ↦ ground (arith, lookup-put x b (record p { disabled = true }) m)
    | inr t ↦ ground (arith, eq_of_beq x b)
  ]

  disable_step-lookup :
      (b : Text) (m : PackageMap) (p : Package)
      → lookup b m ≡ some p
      → AllPresent p.dependencies m
      → (m' : PackageMap) × (disable_step disabled no_numpy b m ≡ ok m')
        × ((x : Text) → lookup x m' ≡ (if x == b then some (marked b p m) else lookup x m))
  disable_step-lookup b m p found deps =
      (_, disable_step-eq b m p found deps, λ x. stepped-lookup b m p x found)

  -- What holds after the packages `seen` have been visited, from the map `m₀` on.
  pub record Inv (m₀ : PackageMap) (seen : List Text) (m : PackageMap) : Type 0 where
    pub same : (a : Text) → unmarked (lookup a m) ≡ unmarked (lookup a m₀)
    pub untouched : (a : Text) → elem a seen ≡ false → lookup a m ≡ lookup a m₀
    pub deps_seen :
        (a d : Text) (p : Package)
        → elem a seen ≡ true
        → lookup a m ≡ some p
        → elem d p.dependencies ≡ true
        → elem d seen ≡ true
    pub decided :
        (a : Text) (p : Package)
        → elem a seen ≡ true
        → lookup a m ≡ some p
        → p.disabled ≡ (is_disabled a m₀ || newly a p m)

  module _ (m₀ m m' : PackageMap) (seen : List Text) (b : Text) (p : Package) (inv : Inv m₀ seen m)
      (new : elem b seen ≡ false) (found : lookup b m ≡ some p)
      (deps : (d : Text) → elem d p.dependencies ≡ true → elem d seen ≡ true)
      (stepped : (x : Text)
        → lookup x m' ≡ (if x == b then some (marked b p m) else lookup x m)) where
    -- A package seen before keeps its mark.
    seen-kept : (d : Text) → elem d seen ≡ true → is_disabled d m ≡ is_disabled d m'
    seen-kept d s = ground (arith, stepped d, eq_of_beq d b)

    newly-kept :
        (a : Text) (q : Package)
        → ((d : Text) → elem d q.dependencies ≡ true → elem d seen ≡ true)
        → newly a q m ≡ newly a q m'
    newly-kept a q h =
        ap (λ t. excluded disabled no_numpy a q || t)
          (any-congr (λ d. is_disabled d m) (λ d. is_disabled d m') q.dependencies
            (λ d member. seen-kept d (h d member)))

    decided_new :
        (a : Text) (q : Package)
        → (a == b) ≡ true
        → lookup a m' ≡ some q
        → q.disabled ≡ (is_disabled a m₀ || newly a q m')
    decided_new a q same e =
        let is_marked : some (marked b p m) ≡ some q =
          (ap (λ t. if t then some (marked b p m) else lookup a m) (sym same) ∙ sym (stepped a))
          ∙ e in
        let path : marked b p m ≡ q = cc is_marked in
        subst (λ r. r.disabled ≡ (is_disabled a m₀ || newly a r m')) path
          (unfold excluded in ground (arith, newly-kept b p deps, eq_of_beq a b, inv.untouched b))

    decided_old :
        (a : Text) (q : Package)
        → (a == b) ≡ false
        → elem a seen ≡ true
        → lookup a m' ≡ some q
        → q.disabled ≡ (is_disabled a m₀ || newly a q m')
    decided_old a q other s e =
        let old : lookup a m ≡ some q =
          (ap (λ t. if t then some (marked b p m) else lookup a m) (sym other) ∙ sym (stepped a))
          ∙ e in
        inv.decided a q s old
        ∙ ap (λ t. is_disabled a m₀ || t) (newly-kept a q (λ d h. inv.deps_seen a d q s old h))

    Inv-step : Inv m₀ (b ∷ seen) m'
    Inv-step = record {
      same = λ a. ground (arith, stepped a, inv.same a, eq_of_beq a b);
      untouched = λ a s. unfold elem in ground (arith, stepped a, inv.untouched a);
      deps_seen = λ a d q s.
          unfold elem in ground (arith, stepped a, inv.deps_seen a d q, deps d, eq_of_beq a b);
      decided = λ a q s e. elim (Bool-cases (a == b)) [
        | inl same ↦ decided_new a q same e
        | inr other ↦ decided_old a q other (unfold elem in ground arith) e
      ];
    }

pub present-same :
    (a : Text) (m m₀ : PackageMap)
    → unmarked (lookup a m) ≡ unmarked (lookup a m₀)
    → present a m ≡ present a m₀
present-same a m m₀ h = ground arith

pub deps_of-same :
    (a : Text) (m m₀ : PackageMap)
    → unmarked (lookup a m) ≡ unmarked (lookup a m₀)
    → deps_of (lookup a m) ≡ deps_of (lookup a m₀)
deps_of-same a m m₀ h = cc (h, deps_of-unmarked (lookup a m), deps_of-unmarked (lookup a m₀))
  where
    deps_of-unmarked : (o : Option Package) → deps_of (unmarked o) ≡ deps_of o
    deps_of-unmarked none = refl
    deps_of-unmarked (some p) = refl

pub dependencies_in-graph_of :
    (a : Text) (m : PackageMap) → dependencies_in (graph_of m) a ≡ deps_of (lookup a m)
unfolding graph_of lookup
dependencies_in-graph_of a [] = refl
dependencies_in-graph_of a ((b, p) ∷ m) = ground (arith, dependencies_in-graph_of a m)

pub present-some :
    (a : Text) (m : PackageMap) → present a m ≡ true → (p : Package) × (lookup a m ≡ some p)
present-some a m h = ground arith

module _ (disabled : List Text) (no_numpy : Bool) (m₀ : PackageMap) where
  pub disable_all-Inv :
      (l seen : List Text) (m : PackageMap)
      → Inv disabled no_numpy m₀ seen m
      → IsStaticOrder (graph_of m₀) seen l
      → AllPresent l m₀
      → AllPresent seen m₀
      → (m' : PackageMap) × (disable_all disabled no_numpy l m ≡ ok m')
        × ((seen' : List Text) × ((a : Text) → elem a l ≡ true → elem a seen' ≡ true)
            × ((a : Text) → elem a seen ≡ true → elem a seen' ≡ true)
            × Inv disabled no_numpy m₀ seen' m')
  unfolding disable_all
  disable_all-Inv [] seen m inv order here before =
      (m, refl, (seen, λ a h. cc (h, elem-nil a), λ a h. h, inv))
  disable_all-Inv (b ∷ l) seen m inv (new, deps, order) here before =
      let b_here : present b m ≡ true =
        present-same b m m₀ (inv.same b) ∙ here b (ground (arith, beq_refl b, elem-cons b b l)) in
      let (p, found) = present-some b m b_here in
      let same_deps : dependencies_in (graph_of m₀) b ≡ p.dependencies =
        dependencies_in-graph_of b m₀
        ∙ (sym (deps_of-same b m m₀ (inv.same b)) ∙ ap deps_of found) in
      let deps_seen : (d : Text) → elem d p.dependencies ≡ true → elem d seen ≡ true =
        λ d h. deps d (ap (elem d) same_deps ∙ h) in
      let (m', step, looked) =
        disable_step-lookup disabled no_numpy b m p found
          (λ d h. present-same d m m₀ (inv.same d) ∙ before d (deps_seen d h)) in
      let (m'', run, (seen', in_l, in_seen, inv'')) =
        disable_all-Inv l (b ∷ seen) m'
          (Inv-step disabled no_numpy m₀ m m' seen b p inv new found deps_seen looked) order
          (λ a h. here a (ground (arith, elem-cons a b l))) (λ a h. before_cons a h) in
      (
        m'',
        rw step run,
        (
          seen',
          λ a h. ground (arith, in_l a, in_seen a, elem-cons a b l, elem-cons a b seen),
          λ a h. in_seen a (ground (arith, elem-cons a b seen)),
          inv'',
        ),
      )
    where
      before_cons : AllPresent (b ∷ seen) m₀
      before_cons a h =
          ground (
            arith,
            before a,
            here a,
            eq_of_beq a b,
            elem-cons a b seen,
            elem-cons a b l,
            beq_refl a,
          )
