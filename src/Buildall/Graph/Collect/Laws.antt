-- ===== src/Buildall/Graph/Collect/Laws.antt =====
-- The collection of packages ends, and is closed under dependencies.
use pyodide.Base.{
  ℕ, zero, suc, ◌<◌, Text, ◌≡◌, refl, ◌∙◌, ◌⊎◌, inl, inr, true, not, ◌&&◌, ◌||◌, List, [], ◌∷◌,
  none, some, elem, filter, length, length-filter-lt, text_eq, eq_of_beq, beq_refl, arith,
  Option-cases, Result, ok, err, Exception,
}
use pyodide.Base.Set.{add, discard, elem-add, elem-discard}
use pyodide.Base.Dict.{Dict, lookup, put, keys, present, lookup-put, elem-keys}
use pyodide.Buildall.Package.{MetaConfig, Package, PackageMap, package_from, new_package}
use pyodide.Buildall.Graph.Interfaces.{SetPop}
use pyodide.Buildall.Graph.Collect.{no_metadata, add_missing, load_package, collect}

pub elem-add_missing :
    (a : Text) (deps : List Text) (m : PackageMap) (packages : List Text)
    → elem a (add_missing deps m packages) ≡ ((elem a deps && not (present a m)) || elem a packages)
unfolding add_missing elem
elem-add_missing a [] m packages = refl
elem-add_missing a (dep ∷ deps) m packages = ground (
  arith,
  elem-add_missing a deps m packages,
  elem-add_missing a deps m (add dep packages),
  elem-add a dep packages,
  eq_of_beq a dep,
)

module _ (all_recipes : Dict Text MetaConfig) where
  -- The recipes that are not yet in the map.
  abbrev pub missing : PackageMap → ℕ
  missing m = length (filter (λ k. not (present k m)) (keys all_recipes))

  -- `packages` waits outside the map, and every dependency in the map is in the map or waits.
  pub record Inv (requested packages : List Text) (m : PackageMap) : Type 0 where
    pub waits : (a : Text) → elem a packages ≡ true → lookup a m ≡ none
    pub loaded :
        (a : Text) (pkg : Package) → lookup a m ≡ some pkg → load_package all_recipes a ≡ ok pkg
    pub closed :
        (a d : Text) (pkg : Package)
        → lookup a m ≡ some pkg
        → elem d pkg.dependencies ≡ true
        → (present d m || elem d packages) ≡ true
    pub has_requested :
        (a : Text) → elem a requested ≡ true → (present a m || elem a packages) ≡ true

  Inv-step :
      (requested : List Text) (c a : Text) (s : List Text) (m : PackageMap) (pkg : Package)
      → Inv requested (a ∷ s) m
      → elem c (a ∷ s) ≡ true
      → load_package all_recipes c ≡ ok pkg
      → Inv requested (add_missing pkg.dependencies (put c pkg m) (discard c (a ∷ s))) (put c pkg m)
  Inv-step requested c a s m pkg inv member load = record {
    waits = λ x. ground (
      arith,
      elem-add_missing x pkg.dependencies (put c pkg m) (discard c (a ∷ s)),
      elem-discard x c (a ∷ s),
      lookup-put x c pkg m,
      inv.waits x,
    );
    loaded = λ x q. ground (arith, lookup-put x c pkg m, inv.loaded x q, eq_of_beq x c);
    closed = λ x d q. ground (
      arith,
      elem-add_missing d pkg.dependencies (put c pkg m) (discard c (a ∷ s)),
      elem-discard d c (a ∷ s),
      lookup-put x c pkg m,
      lookup-put d c pkg m,
      inv.closed x d q,
    );
    has_requested = λ x. ground (
      arith,
      elem-add_missing x pkg.dependencies (put c pkg m) (discard c (a ∷ s)),
      elem-discard x c (a ∷ s),
      lookup-put x c pkg m,
      inv.has_requested x,
    );
  }

  missing-put :
      (c : Text) (pkg : Package) (m : PackageMap)
      → lookup c m ≡ none
      → present c all_recipes ≡ true
      → missing (put c pkg m) < missing m
  missing-put c pkg m new known =
      length-filter-lt (λ k. not (present k m)) (λ k. not (present k (put c pkg m))) c
        (keys all_recipes) (λ x. ground (arith, lookup-put x c pkg m))
        (elem-keys c all_recipes ∙ known) (ground arith)
        (ground (arith, lookup-put c c pkg m, beq_refl c))

  -- A package that loads has a recipe.
  load-present :
      (a : Text) (pkg : Package)
      → load_package all_recipes a ≡ ok pkg
      → present a all_recipes ≡ true
  unfolding load_package
  load-present a pkg h = ground arith

  -- What the loop may end with: a map with what it is to hold, or the error that names a missing recipe.
  abbrev pub CollectPost : List Text → Result PackageMap → Type 0
  CollectPost requested (ok m) = Inv requested [] m
  CollectPost requested (err x) =
      (name : Text) × (lookup name all_recipes ≡ none)
      × (x ≡ Exception.value_error (no_metadata name))

  -- Each recipe is filed under its package's name.
  abbrev pub IsNamed : Type 0
  IsNamed = (a : Text) (c : MetaConfig) → lookup a all_recipes ≡ some c → c.package_spec.name ≡ a

  load_cases :
      (a : Text)
      → IsNamed
      → ((pkg : Package) × (load_package all_recipes a ≡ ok pkg))
        ⊎ ((lookup a all_recipes ≡ none)
            × (load_package all_recipes a ≡ err (Exception.value_error (no_metadata a))))
  unfolding load_package new_package
  load_cases a named = elim (Option-cases (lookup a all_recipes)) [
    | inl absent ↦ inr (absent, rw absent refl)
    | inr (c, found) ↦
        inl (package_from c, rw (found, load_package) (rw (named a c found) (rw (beq_refl a) refl)))
  ]

module _ (set : SetPop) (all_recipes : Dict Text MetaConfig) (named : IsNamed all_recipes) where
  collect_step :
      (fuel : ℕ) (requested : List Text) (a : Text) (s : List Text) (m : PackageMap)
      → ((packages : List Text) (m' : PackageMap)
          → Inv all_recipes requested packages m'
          → missing all_recipes m' < fuel
          → CollectPost all_recipes requested (collect set all_recipes fuel packages m'))
      → Inv all_recipes requested (a ∷ s) m
      → missing all_recipes m < suc fuel
      → CollectPost all_recipes requested (collect set all_recipes (suc fuel) (a ∷ s) m)
  unfolding collect
  collect_step fuel requested a s m ih inv enough =
      let c = set.choose a s in
      elim (load_cases all_recipes c named) [
        | inl (pkg, load) ↦ rw load (
            ih _ _ (Inv-step all_recipes requested c a s m pkg inv (set.choose_elem a s) load) (
              omega (
                arith,
                missing-put all_recipes c pkg m (inv.waits c (set.choose_elem a s))
                    (load-present all_recipes c pkg load),
              )))
        | inr (absent, e) ↦ rw e (c, absent, refl)
      ]

  collect-post :
      (fuel : ℕ) (requested packages : List Text) (m : PackageMap)
      → Inv all_recipes requested packages m
      → missing all_recipes m < fuel
      → CollectPost all_recipes requested (collect set all_recipes fuel packages m)
  collect-post fuel requested [] m inv enough = unfold collect in inv
  collect-post zero requested (a ∷ s) m inv enough = absurd (omega arith)
  collect-post (suc fuel) requested (a ∷ s) m inv enough =
      collect_step fuel requested a s m (λ packages m'. collect-post fuel requested packages m') inv
        enough

-- The packages to collect: those requested, and the dependencies of each, made from their recipes.
pub record IsCollected (all_recipes : Dict Text MetaConfig) (requested : List Text) (m : PackageMap)
    : Type 0 where
  pub loaded :
      (a : Text) (pkg : Package) → lookup a m ≡ some pkg → load_package all_recipes a ≡ ok pkg
  pub closed :
      (a d : Text) (pkg : Package)
      → lookup a m ≡ some pkg
      → elem d pkg.dependencies ≡ true
      → present d m ≡ true
  pub has_requested : (a : Text) → elem a requested ≡ true → present a m ≡ true

-- A map as it is to be, or the ValueError for a name that has no recipe.
abbrev pub Collects : Dict Text MetaConfig → List Text → Result PackageMap → Type 0
Collects all_recipes requested (ok m) = IsCollected all_recipes requested m
Collects all_recipes requested (err x) =
    (name : Text) × (lookup name all_recipes ≡ none)
    × (x ≡ Exception.value_error (no_metadata name))

CollectPost→Collects :
    (all_recipes : Dict Text MetaConfig) (requested : List Text) (r : Result PackageMap)
    → CollectPost all_recipes requested r
    → Collects all_recipes requested r
unfolding elem
CollectPost→Collects all_recipes requested (ok m) inv = record {
  loaded = inv.loaded;
  closed = λ a d pkg. ground (arith, inv.closed a d pkg);
  has_requested = λ a. ground (arith, inv.has_requested a);
}
CollectPost→Collects all_recipes requested (err x) h = h

missing-le :
    (all_recipes : Dict Text MetaConfig) → missing all_recipes [] < suc (length all_recipes)
unfolding keys lookup filter
missing-le [] = omega arith
missing-le ((a, c) ∷ r) = omega (arith, missing-le r)

-- Whatever the order in which names are popped, the loop ends within its rounds, with every requested
-- package, every dependency of a collected package, and each made from its recipe; or it raises
-- ValueError for a name that has no recipe. Each recipe is filed under its package's name.
pub collect_lem :
    (set : SetPop) (all_recipes : Dict Text MetaConfig) (requested : List Text)
    → IsNamed all_recipes
    → Collects all_recipes requested
        (collect set all_recipes (suc (length all_recipes)) requested [])
collect_lem set all_recipes requested named = CollectPost→Collects all_recipes requested _ (
    collect-post set all_recipes named (suc (length all_recipes)) requested requested [] start
      (missing-le all_recipes))
  where
    start : Inv all_recipes requested requested []
    start =
        unfold lookup in
        record {
          waits = λ a h. refl;
          loaded = λ a pkg h. cc;
          closed = λ a d pkg h. cc;
          has_requested = λ a h. h;
        }
