-- ===== src/Buildall/Tests/Builds.antt =====
-- A library and the package that is built with it.
use pyodide.Base.{
  Text, codes, text_beq, ◌≡◌, refl, ap, Bool, ok, All, subst, subst₂, ◌⊎◌, inl, inr, Bool-cases,
  sym, true, ◌≤◌, List, [], ◌∷◌, some, elem, count, ◌==◌, text_eq, arith, eq_of_beq, ok,
}
use pyodide.Base.Set.{update}
use pyodide.Base.Dict.{lookup, keys, values}
use pyodide.Buildall.Package.{Package, PackageMap, package_from, python_package, static_library}
use pyodide.Buildall.Rebuild.{generate_needs_build_set}
use pyodide.Buildall.Rebuild.Laws.{IsClosed, Passes, generate_needs_build_set_lem}
use pyodide.Buildall.Builder.{Builder, start_builder, Reachable}
use pyodide.Buildall.Builder.Invariant.{IsPrepared}
use pyodide.Buildall.Builder.Laws.{IsSafe, start_builder-IsSafe}
use pyodide.Buildall.Tests.Samples.{recipe}

abbrev blas : Package
blas = record (package_from (recipe (codes "blas") static_library [] [])) {
  host_dependents = codes "scipy" ∷ [];
}

abbrev scipy : Package
scipy = record (package_from (recipe (codes "scipy") python_package [] [])) {
  host_dependencies = codes "blas" ∷ [];
  unbuilt_host_dependencies = codes "blas" ∷ [];
}

abbrev both : PackageMap
both = (codes "blas", blas) ∷ (codes "scipy", scipy) ∷ []

abbrev both_names : List Text
both_names = codes "blas" ∷ codes "scipy" ∷ []

-- The map has two packages.
cases :
    (a : Text) (p : Package)
    → lookup a both ≡ some p
    → ((a ≡ codes "blas") × (blas ≡ p)) ⊎ ((a ≡ codes "scipy") × (scipy ≡ p))
unfolding lookup
cases a p h = ground (arith, eq_of_beq a (codes "blas"), eq_of_beq a (codes "scipy"))

by_cases :
    (P : Text → Package → Type 0) (a : Text) (p : Package)
    → P (codes "blas") blas
    → P (codes "scipy") scipy
    → lookup a both ≡ some p
    → P a p
by_cases P a p first second h = elim (cases a p h) [
  | inl (e, f) ↦ subst₂ P (sym e) f first
  | inr (e, f) ↦ subst₂ P (sym e) f second
]

-- `a` is a package to build that has `q` as a host dependency.
abbrev Waits : Text → Text → Type 0
Waits q a =
    (elem a both_names ≡ true)
    × ((p : Package) × (lookup a both ≡ some p) × (elem q p.host_dependencies ≡ true))

both-IsPrepared : IsPrepared both both_names
unfolding lookup elem count keys codes text_beq package_from update
both-IsPrepared = record {
  named_right = λ a pkg. by_cases (λ b p. p.name ≡ b) a pkg refl refl;
  dependent = λ q a pkg h n.
      by_cases (λ b p. elem a p.host_dependents ≡ true → Waits b a) q pkg
        (λ d.
          subst (Waits (codes "blas")) (sym (eq_of_beq a (codes "scipy") (ground arith)))
            (refl, (scipy, refl, refl)))
        (λ d. cc) h;
  complete = λ q a pkg p h k.
      by_cases (λ b r. elem q r.host_dependencies ≡ true → elem b pkg.host_dependents ≡ true) a p
        (λ d. cc)
        (λ d.
          by_cases
            (λ b r. (b == codes "blas") ≡ true → elem (codes "scipy") r.host_dependents ≡ true) q
            pkg (λ e. refl) (λ e. cc) h (ground arith))
        k;
  held_deps = λ d a p h.
      by_cases (λ b r. elem d r.host_dependencies ≡ true → elem d (keys both) ≡ true) a p (λ e. cc)
        (λ e. ground arith) h;
  fresh = λ d a p.
      by_cases (λ b r. elem d r.unbuilt_host_dependencies ≡ elem d r.host_dependencies) a p refl
        refl;
  found = λ a h. elim (Bool-cases (a == codes "blas")) [
    | inl same ↦ (blas, ground arith)
    | inr other ↦ (scipy, ground arith)
  ];
  once = λ a. elim (Bool-cases (a == codes "blas")) [
    | inl same ↦
        subst (λ b. count b both_names ≤ 1) (sym (eq_of_beq a (codes "blas") same)) (omega arith)
    | inr other ↦ ground arith
  ];
  distinct =
      λ q a pkg. by_cases (λ b r. count a r.host_dependents ≤ 1) q pkg (ground arith) (omega arith);
}

start_builder-IsSafe_example :
    (s : Builder) × (start_builder both both_names ≡ ok s)
    × ((t : Builder) → Reachable both s t → IsSafe both both_names t)
start_builder-IsSafe_example = start_builder-IsSafe both both_names both-IsPrepared

both-IsClosed : IsClosed both
unfolding lookup elem codes text_beq values package_from update
both-IsClosed = record {
  named_right = λ a pkg. both-IsPrepared.named_right a pkg;
  all_known = (refl, (refl, tt));
  dependents = λ a d pkg.
      by_cases (λ b p. elem d p.host_dependents ≡ true → (r : Package) × (lookup d both ≡ some r)) a
        pkg (λ h. (scipy, ap (λ b. lookup b both) (eq_of_beq d (codes "scipy") (ground arith))))
        (λ h. cc);
}

generate_needs_build_set_lem_example :
    (r : List Text) × (generate_needs_build_set both 3 (λ p. true) ≡ ok r)
    × All (λ p. true ≡ true → elem p.name r ≡ true) (values both)
    × Passes both (λ a. elem a r)
    × ((q : Text → Bool)
        → Passes both q
        → All (λ p. true ≡ true → q p.name ≡ true) (values both)
        → (a : Text) → elem a r ≡ true
        → q a ≡ true)
unfolding keys
generate_needs_build_set_lem_example =
    generate_needs_build_set_lem both 3 (λ p. true) both-IsClosed (omega arith)
