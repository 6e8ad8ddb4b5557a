-- ===== src/Buildall/Graph/Generate/Ready.antt =====
-- The map is ready for the selection: what the first two loops leave of the recipes.
use pyodide.Base.{
  Text, ◌≡◌, refl, sym, ap, subst, ◌∙◌, inl, inr, Bool, true, false, ◌||◌, List, [], ◌∷◌, ◌++◌,
  Option, none, some, elem, elem-nil, elem-append, any-false, text_eq, eq_of_beq, arith,
  Option-cases, ok,
}
use pyodide.Base.Set.{elem-update}
use pyodide.Base.Dict.{Dict, lookup, present, keys, elem-keys}
use pyodide.Buildall.Package.{MetaConfig, Package, PackageMap, new_package, package_from}
use pyodide.Buildall.Graph.Interfaces.{Sorter}
use pyodide.Buildall.Graph.Collect.{load_config, load_package, graph_of}
use pyodide.Buildall.Graph.Collect.Laws.{IsCollected}
use pyodide.Buildall.Graph.Disable.Laws.{
  AllPresent, unmarked, deps_of, is_disabled, Inv, newly, present-same, deps_of-same,
  dependencies_in-graph_of,
}
use pyodide.Buildall.Graph.Select.Dependents.{dependents_of}
use pyodide.Buildall.Graph.Select.Step.{host_deps_of, IsReady}

-- A package that loads is made from a recipe of its name.
load_package-from :
    (all_recipes : Dict Text MetaConfig) (a : Text) (p : Package)
    → load_package all_recipes a ≡ ok p
    → (c : MetaConfig) × (package_from c ≡ p) × (c.package_spec.name ≡ a)
load_package-from all_recipes a p h = by_config (lookup a all_recipes) (unfold load_package in h)
  where
    by_config :
        (o : Option MetaConfig)
        → load_config a o ≡ ok p
        → (c : MetaConfig) × (package_from c ≡ p) × (c.package_spec.name ≡ a)
    by_config none e = cc e
    by_config (some c) e =
        unfold new_package in (c, ground arith, ground (arith, eq_of_beq c.package_spec.name a))

-- Named as its recipe is filed, with its host dependencies among its dependencies, and no dependents.
package_from-fields :
    (c : MetaConfig) (d : Text)
    → ((package_from c).name ≡ c.package_spec.name)
      × ((package_from c).host_dependents ≡ [])
      × (elem d (package_from c).host_dependencies ≡ true
          → elem d (package_from c).dependencies ≡ true)
unfolding package_from
package_from-fields c d = (
  refl,
  refl,
  λ h. ground (
    arith,
    elem-update d (c.requirements.run ++ c.requirements.host) [],
    elem-append d c.requirements.run c.requirements.host,
  ),
)

pub keys-graph_of : (m : PackageMap) → keys (graph_of m) ≡ keys m
unfolding keys graph_of
keys-graph_of [] = refl
keys-graph_of ((a, p) ∷ m) = ap (λ l. a ∷ l) (keys-graph_of m)

unmarked_fields :
    (p : Package) (o : Option Package)
    → unmarked (some p) ≡ unmarked o
    → (q : Package) × (o ≡ some q)
      × (p.name ≡ q.name)
      × (p.host_dependencies ≡ q.host_dependencies)
      × (p.dependencies ≡ q.dependencies)
      × (p.host_dependents ≡ q.host_dependents)
unmarked_fields p none h = cc h
unmarked_fields p (some q) h = (q, refl, cc h, cc h, cc h, cc h)

module _ (all_recipes : Dict Text MetaConfig) (requested : List Text) (m₀ : PackageMap)
    (collected : IsCollected all_recipes requested m₀) where
  name_eq : (a : Text) (p : Package) → lookup a m₀ ≡ some p → p.name ≡ a
  name_eq a p h =
      let (c, made, named) = load_package-from all_recipes a p (collected.loaded a p h) in
      sym (ap (λ q. q.name) made) ∙ ((package_from-fields c a).0 ∙ named)

  no_dependents : (a : Text) (p : Package) → lookup a m₀ ≡ some p → p.host_dependents ≡ []
  no_dependents a p h =
      let (c, made, named) = load_package-from all_recipes a p (collected.loaded a p h) in
      sym (ap (λ q. q.host_dependents) made) ∙ (package_from-fields c a).1

  host_dep :
      (a d : Text) (p : Package)
      → lookup a m₀ ≡ some p
      → elem d p.host_dependencies ≡ true
      → elem d p.dependencies ≡ true
  host_dep a d p h e =
      let (c, made, named) = load_package-from all_recipes a p (collected.loaded a p h) in
      subst (λ q. elem d q.dependencies ≡ true) made
        ((package_from-fields c d).2 (subst (λ q. elem d q.host_dependencies ≡ true) (sym made) e))

  closed_deps : (b d : Text) → elem d (deps_of (lookup b m₀)) ≡ true → present d m₀ ≡ true
  closed_deps b d h = elim (Option-cases (lookup b m₀)) [
    | inl absent ↦ cc (sym (ap (λ o. elem d (deps_of o)) absent) ∙ h, elem-nil d)
    | inr (p, found) ↦ collected.closed b d p found (sym (ap (λ o. elem d (deps_of o)) found) ∙ h)
  ]

  -- The names of a static order are names of the map.
  pub order-AllPresent :
      (sorter : Sorter) (l : List Text)
      → sorter.static_order (graph_of m₀) ≡ some l
      → AllPresent l m₀
  order-AllPresent sorter l e a h = elim (sorter.sound (graph_of m₀) l a e h) [
    | inl key ↦ sym (elem-keys a m₀) ∙ (sym (ap (elem a) (keys-graph_of m₀)) ∙ key)
    | inr (b, dep) ↦ closed_deps b a (sym (ap (elem a) (dependencies_in-graph_of b m₀)) ∙ dep)
  ]

  module _ (disabled : List Text) (no_numpy : Bool) (seen : List Text) (m₁ : PackageMap)
      (inv : Inv disabled no_numpy m₀ seen m₁)
      (all_seen : (a : Text) → present a m₀ ≡ true → elem a seen ≡ true) where
    -- The package before the marks.
    before :
        (a : Text) (p : Package)
        → lookup a m₁ ≡ some p
        → (q : Package) × (lookup a m₀ ≡ some q)
          × (p.name ≡ q.name)
          × (p.host_dependencies ≡ q.host_dependencies)
          × (p.dependencies ≡ q.dependencies)
          × (p.host_dependents ≡ q.host_dependents)
    before a p h = unmarked_fields p (lookup a m₀) (sym (ap unmarked h) ∙ inv.same a)

    decided :
        (a : Text) (p : Package)
        → lookup a m₁ ≡ some p
        → p.disabled ≡ (is_disabled a m₀ || newly disabled no_numpy a p m₁)
    decided a p h =
        let (q, found, _, _, _, _) = before a p h in inv.decided a p (all_seen a (ground arith)) h

    hosts_marked :
        (a d : Text)
        → elem d (host_deps_of (lookup a m₁)) ≡ true
        → elem d (deps_of (lookup a m₁)) ≡ true
    hosts_marked a d h = elim (Option-cases (lookup a m₁)) [
      | inl absent ↦ cc (sym (ap (λ o. elem d (host_deps_of o)) absent) ∙ h, elem-nil d)
      | inr (p, found) ↦
          let (q, found₀, _, hosts, deps, _) = before a p found in
          ap (λ o. elem d (deps_of o)) found
          ∙ (ap (elem d) deps
              ∙ host_dep a d q found₀
                  (sym (ap (elem d) hosts) ∙ (sym (ap (λ o. elem d (host_deps_of o)) found) ∙ h)))
    ]

    enabled_package :
        (a d : Text) (p : Package)
        → lookup a m₁ ≡ some p
        → p.disabled ≡ false
        → elem d p.dependencies ≡ true
        → is_disabled d m₁ ≡ false
    enabled_package a d p found on h =
        any-false (λ x. is_disabled x m₁) d p.dependencies (ground (arith, decided a p found)) h

    enabled_marked :
        (a d : Text)
        → is_disabled a m₁ ≡ false
        → elem d (deps_of (lookup a m₁)) ≡ true
        → is_disabled d m₁ ≡ false
    enabled_marked a d on h = elim (Option-cases (lookup a m₁)) [
      | inl absent ↦ cc (sym (ap (λ o. elem d (deps_of o)) absent) ∙ h, elem-nil d)
      | inr (p, found) ↦
          enabled_package a d p found (ground arith) (sym (ap (λ o. elem d (deps_of o)) found) ∙ h)
    ]

    pub unmarked_dependents : (d : Text) → dependents_of (lookup d m₁) ≡ []
    unmarked_dependents d = elim (Option-cases (lookup d m₁)) [
      | inl absent ↦ ap dependents_of absent
      | inr (p, found) ↦
          let (q, found₀, _, _, _, same) = before d p found in
          ap dependents_of found ∙ (same ∙ no_dependents d q found₀)
    ]

    pub marked-IsReady : IsReady m₁
    marked-IsReady = record {
      names = λ a p h. let (q, found, n, _, _, _) = before a p h in n ∙ name_eq a q found;
      hosts = hosts_marked;
      closed = λ a d h.
          present-same d m₁ m₀ (inv.same d)
          ∙ closed_deps a d (sym (ap (elem d) (deps_of-same a m₁ m₀ (inv.same a))) ∙ h);
      enabled = enabled_marked;
    }
