-- ===== src/Buildall/Graph/Select/Round.antt =====
-- The selecting loop returns, and keeps its invariant.
use pyodide.Base.{
  Text, ◌≡◌, refl, sym, ap, subst₂, ◌∙◌, true, false, List, [], ◌∷◌, Option, none, some, elem,
  elem-cons, text_eq, beq_refl, arith, Bool-cases, inl, inr, ok,
}
use mathlib.Core.List.{reverse_aux}
use pyodide.Base.Set.{add, discard, update}
use pyodide.Base.Dict.{lookup, present}
use pyodide.Buildall.Package.{Package, PackageMap}
use pyodide.Buildall.Graph.Interfaces.{DependencyGraph, dependencies_in, IsStaticOrder}
use pyodide.Buildall.Graph.Disable.Laws.{
  AllPresent, present-some, get_item-some, deps_of, is_disabled,
}
use pyodide.Buildall.Graph.Select.{Selection, select_step, select_loop}
use pyodide.Buildall.Graph.Select.Dependents.{undepended, Adds, add_host_dependent-Adds}
use pyodide.Buildall.Graph.Select.Step.{
  host_deps_of, IsReady, Inv, step_disabled, step_skipped, step_selected,
}

-- A package of the map during the loop has the fields that it had before, but for its dependents.
undepended_fields :
    (p : Package) (o : Option Package)
    → undepended (some p) ≡ undepended o
    → (q : Package) × (o ≡ some q)
      × (p.disabled ≡ q.disabled)
      × (p.name ≡ q.name)
      × (p.dependencies ≡ q.dependencies)
      × (p.host_dependencies ≡ q.host_dependencies)
undepended_fields p none h = cc h
undepended_fields p (some q) h = (q, refl, cc h, cc h, cc h, cc h)

pub present-undepended :
    (a : Text) (m m₀ : PackageMap)
    → undepended (lookup a m) ≡ undepended (lookup a m₀)
    → present a m ≡ present a m₀
present-undepended a m m₀ h = ground arith

module _ (m₀ : PackageMap) (requested : List Text) (b : Text) (rest : List Text) (s : Selection)
    (ready : IsReady m₀) (inv : Inv m₀ requested (b ∷ rest) s) (new : elem b rest ≡ false)
    (after : (d : Text) → elem d (deps_of (lookup b m₀)) ≡ true → elem d rest ≡ true) where
  abbrev Steps : Type 0
  Steps = (s' : Selection) × (select_step b s ≡ ok s') × Inv m₀ requested rest s'

  module _ (p q : Package) (found : lookup b s.pkg_map ≡ some p) (found₀ : lookup b m₀ ≡ some q)
      (same_mark : p.disabled ≡ q.disabled) (same_name : p.name ≡ q.name)
      (same_deps : p.dependencies ≡ q.dependencies)
      (same_hosts : p.host_dependencies ≡ q.host_dependencies) where
    hosts_eq : p.host_dependencies ≡ host_deps_of (lookup b m₀)
    hosts_eq = same_hosts ∙ sym (ap host_deps_of found₀)

    hosts_present : AllPresent p.host_dependencies s.pkg_map
    hosts_present d h =
        present-undepended d s.pkg_map m₀ (inv.same d)
        ∙ ready.closed b d (ready.hosts b d (ap (elem d) (sym hosts_eq) ∙ h))

    mark_eq : p.disabled ≡ is_disabled b m₀
    mark_eq = ground arith

    round_selected : p.disabled ≡ false → elem b s.requested_with_deps ≡ true → Steps
    unfolding select_step
    round_selected on chosen =
        let (m', run, adds) =
          add_host_dependent-Adds p.name p.host_dependencies s.pkg_map hosts_present in
        let e = get_item-some b s.pkg_map found in
        (
          record s {
            requested_with_deps = update p.dependencies s.requested_with_deps;
            pkg_map = m';
          },
          rw e (rw on (rw chosen (rw run refl))),
          step_selected m₀ requested b rest s ready inv new after p.dependencies m' chosen
              (sym mark_eq ∙ on) (same_deps ∙ sym (ap deps_of found₀))
              (subst₂ (λ n l. Adds n l s.pkg_map m') (same_name ∙ ready.names b q found₀) hosts_eq
                adds),
        )

    round_found : Steps
    round_found = elim (Bool-cases p.disabled) [
      | inl off ↦ (
        record s {
          requested_with_deps = discard b s.requested_with_deps;
          disabled_packages = add b s.disabled_packages;
        },
        unfold select_step in (rw (get_item-some b s.pkg_map found) (rw off refl)),
        step_disabled m₀ requested b rest s ready inv new after (add b s.disabled_packages)
            (sym mark_eq ∙ off),
      )
      | inr on ↦ elim (Bool-cases (elem b s.requested_with_deps)) [
        | inl chosen ↦ round_selected on chosen
        | inr out ↦ (
          s,
          unfold select_step in (rw (get_item-some b s.pkg_map found) (rw on (rw out refl))),
          step_skipped m₀ requested b rest s ready inv new after out,
        )
      ]
    ]

  select_step-Inv : present b m₀ ≡ true → Steps
  select_step-Inv here =
      let (p, found) =
        present-some b s.pkg_map (present-undepended b s.pkg_map m₀ (inv.same b) ∙ here) in
      let (q, found₀, mark, name, deps, hosts) =
        undepended_fields p (lookup b m₀) (sym (ap undepended found) ∙ inv.same b) in
      round_found p q found found₀ mark name deps hosts

-- Each name stands once, before its dependencies.
abbrev pub IsReverseOrder : (Text → List Text) → List Text → Type 0
IsReverseOrder deps [] = Unit
IsReverseOrder deps (a ∷ l) =
    (elem a l ≡ false)
    × ((d : Text) → elem d (deps a) ≡ true → elem d l ≡ true)
    × IsReverseOrder deps l

pub reverse-IsReverseOrder :
    (graph : DependencyGraph) (l seen : List Text)
    → IsStaticOrder graph seen l
    → IsReverseOrder (dependencies_in graph) seen
    → IsReverseOrder (dependencies_in graph) (reverse_aux l seen)
reverse-IsReverseOrder graph [] seen order done = done
reverse-IsReverseOrder graph (a ∷ l) seen (new, deps, order) done =
    reverse-IsReverseOrder graph l (a ∷ seen) order (new, deps, done)

pub select_loop-Inv :
    (m₀ : PackageMap) (requested l : List Text) (s : Selection)
    → IsReady m₀
    → IsReverseOrder (λ a. deps_of (lookup a m₀)) l
    → AllPresent l m₀
    → Inv m₀ requested l s
    → (s' : Selection) × (select_loop l s ≡ ok s') × Inv m₀ requested [] s'
unfolding select_loop
select_loop-Inv m₀ requested [] s ready order here inv = (s, refl, inv)
select_loop-Inv m₀ requested (b ∷ l) s ready (new, after, order) here inv =
    let (s₁, step, inv₁) =
      select_step-Inv m₀ requested b l s ready inv new after
        (here b (ground (arith, elem-cons b b l, beq_refl b))) in
    let (s₂, run, inv₂) =
      select_loop-Inv m₀ requested l s₁ ready order
        (λ d h. here d (ground (arith, elem-cons d b l))) inv₁ in
    (s₂, rw step run, inv₂)
