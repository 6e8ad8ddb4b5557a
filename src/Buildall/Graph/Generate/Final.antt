-- ===== src/Buildall/Graph/Generate/Final.antt =====
-- What the selecting loop leaves is the graph of the packages collected.
use pyodide.Base.{
  Text, ◌≡◌, sym, ap, ◌∙◌, inl, inr, Bool, true, false, ◌&&◌, ◌||◌, List, [], none, some, elem,
  elem-nil, any, text_eq, arith, Option-cases, if◌then◌else◌,
}
use pyodide.Base.Dict.{lookup, present}
use pyodide.Buildall.Package.{Package, PackageMap}
use pyodide.Buildall.Graph.Disable.{excluded}
use pyodide.Buildall.Graph.Disable.Laws.{
  unmarked, present-some, deps_of, is_disabled, Inv, present-same, deps_of-same,
}
use pyodide.Buildall.Graph.Select.{Selection}
use pyodide.Buildall.Graph.Select.Dependents.{undepended}
use pyodide.Buildall.Graph.Select.Step as Step
use pyodide.Buildall.Graph.Select.Step.{host_deps_of, IsReady}
use pyodide.Buildall.Graph.Select.Round.{present-undepended}

-- The graph that is to be built from the packages collected.
pub record IsGraph (requested disabled : List Text) (no_numpy : Bool) (collected r : PackageMap)
    : Type 0 where
  -- The disabled packages: by themselves, or by a dependency.
  pub marks : Text → Bool
  pub marks_lem :
      (a : Text) (p : Package)
      → lookup a collected ≡ some p
      → marks a ≡ (p.disabled || (excluded disabled no_numpy a p || any marks p.dependencies))
  pub has_requested : (a : Text) → elem a requested ≡ true → marks a ≡ false → present a r ≡ true
  pub enabled : (a : Text) → present a r ≡ true → marks a ≡ false
  pub closed :
      (a d : Text) (p : Package)
      → lookup a r ≡ some p
      → elem d p.dependencies ≡ true
      → present d r ≡ true
  -- Each package is the one collected, enabled, but for its host dependents.
  pub same :
      (a : Text) (p : Package)
      → lookup a r ≡ some p
      → (q : Package) × (lookup a collected ≡ some q)
        × (p ≡ record q { host_dependents = p.host_dependents; disabled = false })
  -- There are no other packages than the requested ones and dependencies of those.
  pub least :
      (Q : Text → Bool)
      → ((a : Text) → elem a requested ≡ true → marks a ≡ false → Q a ≡ true)
      → ((a d : Text) (p : Package)
          → Q a ≡ true
          → marks a ≡ false
          → lookup a collected ≡ some p
          → elem d p.dependencies ≡ true
          → Q d ≡ true)
      → (a : Text) → present a r ≡ true
      → Q a ≡ true
  -- The host dependents of a package are the packages that have it as a host dependency.
  pub dependents :
      (a d : Text) (q : Package)
      → lookup d r ≡ some q
      → elem a q.host_dependents ≡ elem d (host_deps_of (lookup a r))

-- A package that differs in its dependents from one that differs from a third in its mark.
same_package :
    (p p₁ q : Package)
    → undepended (some p) ≡ undepended (some p₁)
    → unmarked (some p₁) ≡ unmarked (some q)
    → p₁.disabled ≡ false
    → p ≡ record q { host_dependents = p.host_dependents; disabled = false }
same_package p p₁ q h k on =
    let marked : p.disabled ≡ false = cc h ∙ on in
    let e : record p { host_dependents = [] } ≡ record p₁ { host_dependents = [] } = cc h in
    let f : record p₁ { disabled = false } ≡ record q { disabled = false } = cc k in
    ap (λ b. record p { disabled = b }) marked
    ∙ ap {A = Package} (λ x. record x { host_dependents = p.host_dependents; disabled = false }) e
    ∙ ap {A = Package} (λ x. record x { host_dependents = p.host_dependents }) f

module _ (requested disabled : List Text) (no_numpy : Bool) (m₀ m₁ r : PackageMap)
    (seen : List Text) (s : Selection) (inv : Inv disabled no_numpy m₀ seen m₁)
    (all_seen : (a : Text) → present a m₀ ≡ true → elem a seen ≡ true)
    (final : Step.Inv m₁ requested [] s)
    (looked : (a : Text)
      → lookup a r ≡ (if elem a s.requested_with_deps then lookup a s.pkg_map else none)) where
  in_r :
      (a : Text) (p : Package)
      → lookup a r ≡ some p
      → (elem a s.requested_with_deps ≡ true) × (lookup a s.pkg_map ≡ some p)
  in_r a p h = ground (arith, looked a)

  -- A selected name is a name of the result.
  selected-present : (a : Text) → elem a s.requested_with_deps ≡ true → present a r ≡ true
  selected-present a h =
      ground (arith, looked a, final.in_map a, present-undepended a s.pkg_map m₁ (final.same a))

  closed_r :
      (a d : Text) (p : Package)
      → lookup a r ≡ some p
      → elem d p.dependencies ≡ true
      → present d r ≡ true
  closed_r a d p h e =
      let (chosen, found) = in_r a p h in
      let deps : p.dependencies ≡ deps_of (lookup a m₁) = ground (arith, final.same a) in
      selected-present d (final.closed a d chosen (elem-nil a) (sym (ap (elem d) deps) ∙ e))

  host_deps-r :
      (a d : Text)
      → elem d (host_deps_of (lookup a r))
        ≡ (elem a s.requested_with_deps && elem d (host_deps_of (lookup a m₁)))
  host_deps-r a d = ground (arith, looked a, final.same a, final.in_map a, elem-nil d)

  dependents_r :
      (a d : Text) (q : Package)
      → lookup d r ≡ some q
      → elem a q.host_dependents ≡ elem d (host_deps_of (lookup a r))
  dependents_r a d q h =
      let (chosen, found) = in_r d q h in
      let here : present d m₁ ≡ true = final.in_map d chosen in
      ground (arith, final.dependents a d here, host_deps-r a d, elem-nil a)

  marks_r :
      (a : Text) (p : Package)
      → lookup a m₀ ≡ some p
      → is_disabled a m₁ ≡ (
          p.disabled
          || (excluded disabled no_numpy a p || any (λ d. is_disabled d m₁) p.dependencies))
  marks_r a p h = elim (Option-cases (lookup a m₁)) [
    | inl absent ↦ absurd (none_some (ap unmarked (sym absent) ∙ (inv.same a ∙ ap unmarked h)))
    | inr (q, found) ↦
        let deps : q.dependencies ≡ p.dependencies =
          ap deps_of (sym found) ∙ (deps_of-same a m₁ m₀ (inv.same a) ∙ ap deps_of h) in
        let mark = inv.decided a q (all_seen a (ground arith)) found in
        unfold excluded in ground (arith, mark, deps)
  ]
    where
      none_some : none ≡ some (record p { disabled = false }) → ⊥
      none_some e = cc e

  enabled_r : (a : Text) → present a r ≡ true → is_disabled a m₁ ≡ false
  enabled_r a h = ground (arith, looked a, final.enabled a, elem-nil a)

  same_r :
      (a : Text) (p : Package)
      → lookup a r ≡ some p
      → (q : Package) × (lookup a m₀ ≡ some q)
        × (p ≡ record q { host_dependents = p.host_dependents; disabled = false })
  same_r a p h =
      let (chosen, found) = in_r a p h in
      let (p₁, found₁) = present-some a m₁ (final.in_map a chosen) in
      let (q, found₀) =
        present-some a m₀ (sym (present-same a m₁ m₀ (inv.same a)) ∙ final.in_map a chosen) in
      (
        q,
        found₀,
        same_package p p₁ q (ap undepended (sym found) ∙ (final.same a ∙ ap undepended found₁))
            (ap unmarked (sym found₁) ∙ (inv.same a ∙ ap unmarked found₀))
            (ground (arith, enabled_r a)),
      )

  -- A dependency in the map that is left by disabling is one of a package that was collected.
  dependency_of :
      (a d : Text)
      → elem d (deps_of (lookup a m₁)) ≡ true
      → (p : Package) × (lookup a m₀ ≡ some p) × (elem d p.dependencies ≡ true)
  dependency_of a d h = elim (Option-cases (lookup a m₀)) [
    | inl none_there ↦ absurd (
        no_dependency
          (ap (λ o. elem d (deps_of o)) (sym none_there) ∙ (sym (ap (elem d) deps) ∙ h)))
    | inr (p, found) ↦
        (p, found, ap (λ o. elem d (deps_of o)) (sym found) ∙ (sym (ap (elem d) deps) ∙ h))
  ]
    where
      deps : deps_of (lookup a m₁) ≡ deps_of (lookup a m₀)
      deps = deps_of-same a m₁ m₀ (inv.same a)

      no_dependency : elem d [] ≡ true → ⊥
      no_dependency e = cc (e, elem-nil d)

  least_r :
      (Q : Text → Bool)
      → ((a : Text) → elem a requested ≡ true → is_disabled a m₁ ≡ false → Q a ≡ true)
      → ((a d : Text) (p : Package)
          → Q a ≡ true
          → is_disabled a m₁ ≡ false
          → lookup a m₀ ≡ some p
          → elem d p.dependencies ≡ true
          → Q d ≡ true)
      → (a : Text) → present a r ≡ true
      → Q a ≡ true
  least_r Q f g a h =
      final.least Q f
        (λ a d q on e. let (p, found, m) = dependency_of a d e in g a d p q on found m) a
        (ground (arith, looked a)) (enabled_r a h)

  pub final-IsGraph : IsGraph requested disabled no_numpy m₀ r
  final-IsGraph = record {
    marks = λ a. is_disabled a m₁;
    marks_lem = marks_r;
    has_requested = λ a h on. selected-present a (final.has_requested a h on);
    enabled = enabled_r;
    closed = closed_r;
    same = same_r;
    least = least_r;
    dependents = dependents_r;
  }
