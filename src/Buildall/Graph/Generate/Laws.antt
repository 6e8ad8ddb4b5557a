-- ===== src/Buildall/Graph/Generate/Laws.antt =====
-- What `generate_dependency_graph` returns before it validates the map.
use pyodide.Base.{
  suc, Text, ◌≡◌, refl, sym, ap, subst, ◌∙◌, ◌⊎◌, inl, inr, Bool, true, List, [], none, some, elem,
  elem-nil, elem-reverse, length, text_eq, arith, Option-cases, Result, ok, err, Exception, ◌>>=◌,
}
use mathlib.Core.Path.{fun_ext}
use mathlib.Core.List.{reverse}
use pyodide.Base.Set.{discard}
use pyodide.Base.Dict.{Dict, lookup, present, elem-keys}
use pyodide.Buildall.Package.{MetaConfig, PackageMap}
use pyodide.Buildall.Graph.Interfaces.{SetPop, Sorter, IsStaticOrder}
use pyodide.Buildall.Graph.Collect.{graph_of, collect, no_metadata}
use pyodide.Buildall.Graph.Collect.Laws.{IsCollected, IsNamed, Collects, collect_lem}
use pyodide.Buildall.Graph.Disable.{disable_all}
use pyodide.Buildall.Graph.Disable.Laws.{
  unmarked, deps_of, Inv, disable_all-Inv, present-same, deps_of-same, dependencies_in-graph_of,
}
use pyodide.Buildall.Graph.Select.{Selection, select_loop, restrict}
use pyodide.Buildall.Graph.Select.Step as Step
use pyodide.Buildall.Graph.Select.Step.{host_deps_of, IsReady}
use pyodide.Buildall.Graph.Select.Round.{
  IsReverseOrder, reverse-IsReverseOrder, select_loop-Inv, present-undepended,
}
use pyodide.Buildall.Graph.Select.Restrict.{restrict-lookup}
use pyodide.Buildall.Graph.Generate.{select_collected, select_graph, no_numpy_name}
use pyodide.Buildall.Graph.Generate.Ready.{
  order-AllPresent, marked-IsReady, unmarked_dependents, keys-graph_of,
}
use pyodide.Buildall.Graph.Generate.Final.{IsGraph, final-IsGraph}

-- The result is the graph of the packages collected; or a name has no recipe; or graphlib finds a
-- cycle among the dependencies.
abbrev pub Selects :
    Dict Text MetaConfig → List Text → List Text → Bool → Result PackageMap → Type 0
Selects all_recipes requested disabled no_numpy (ok r) =
    (m₀ : PackageMap) × IsCollected all_recipes requested m₀
    × IsGraph requested disabled no_numpy m₀ r
Selects all_recipes requested disabled no_numpy (err x) =
    ((name : Text) × (lookup name all_recipes ≡ none)
      × (x ≡ Exception.value_error (no_metadata name)))
    ⊎ (x ≡ Exception.cycle_error)

module _ (sorter : Sorter) (all_recipes : Dict Text MetaConfig) (requested disabled : List Text)
    (no_numpy : Bool) (m₀ : PackageMap) (collected : IsCollected all_recipes requested m₀) where
  start-disable : Inv disabled no_numpy m₀ [] m₀
  start-disable = record {
    same = λ a. refl;
    untouched = λ a h. refl;
    deps_seen = λ a d p h. cc (h, elem-nil a);
    decided = λ a p h. cc (h, elem-nil a);
  }

  module _ (l seen : List Text) (m₁ : PackageMap) (inv : Inv disabled no_numpy m₀ seen m₁)
      (all_listed : (a : Text) → present a m₀ ≡ true → elem a l ≡ true)
      (all_seen : (a : Text) → present a m₀ ≡ true → elem a seen ≡ true) where
    start-select :
        Step.Inv m₁ requested
          (reverse l)
          (record { requested_with_deps = requested; disabled_packages = []; pkg_map = m₁ })
    start-select = record {
      same = λ a. refl;
      in_map = λ a h. present-same a m₁ m₀ (inv.same a) ∙ collected.has_requested a h;
      closed = λ a d h r. cc (r, elem-reverse a l, all_listed a (collected.has_requested a h));
      enabled = λ a h r. cc (r, elem-reverse a l, all_listed a (collected.has_requested a h));
      has_requested = λ a h on. h;
      least = λ Q f g a h on. f a h on;
      dependents = λ a d h. ground (
        arith,
        unmarked_dependents all_recipes requested m₀ collected disabled no_numpy seen m₁ inv
            all_seen d,
        elem-nil a,
        elem-reverse a l,
        all_listed a,
        collected.has_requested a,
      );
    }

  after_order :
      (l : List Text)
      → sorter.static_order (graph_of m₀) ≡ some l
      → (r : PackageMap) × (select_collected sorter requested disabled no_numpy m₀ ≡ ok r)
        × IsGraph requested disabled no_numpy m₀ r
  after_order l e =
      let here = order-AllPresent all_recipes requested m₀ collected sorter l e in
      let static = sorter.sorted (graph_of m₀) l e in
      let all_listed : (a : Text) → present a m₀ ≡ true → elem a l ≡ true = λ a h.
        sorter.complete (graph_of m₀) l a e
          (ap (elem a) (keys-graph_of m₀) ∙ (elem-keys a m₀ ∙ h)) in
      let (m₁, run₁, (seen, listed_seen, _, inv)) =
        disable_all-Inv disabled no_numpy m₀ l [] m₀ start-disable static here
          (λ a h. absurd_nil a h) in
      let all_seen : (a : Text) → present a m₀ ≡ true → elem a seen ≡ true =
        λ a h. listed_seen a (all_listed a h) in
      let ready =
        marked-IsReady all_recipes requested m₀ collected disabled no_numpy seen m₁ inv all_seen in
      let (s, run₂, final) =
        select_loop-Inv m₁ requested (reverse l) _ ready (reversed m₁ inv.same l static)
          (λ a h. present-same a m₁ m₀ (inv.same a) ∙ here a (sym (elem-reverse a l) ∙ h))
          (start-select l seen m₁ inv all_listed all_seen) in
      let (r, run₃, looked) =
        restrict-lookup s.requested_with_deps s.pkg_map
          (λ a h. present-undepended a s.pkg_map m₁ (final.same a) ∙ final.in_map a h) in
      (
        r,
        runs l m₁ s r e run₁ run₂ run₃,
        final-IsGraph requested disabled no_numpy m₀ m₁ r seen s inv all_seen final looked,
      )
    where
      absurd_nil : (a : Text) → elem a [] ≡ true → present a m₀ ≡ true
      absurd_nil a h = cc (h, elem-nil a)

      reversed :
          (m₁ : PackageMap)
          → ((a : Text) → unmarked (lookup a m₁) ≡ unmarked (lookup a m₀))
          → (l : List Text) → IsStaticOrder (graph_of m₀) [] l
          → IsReverseOrder (λ a. deps_of (lookup a m₁)) (reverse l)
      reversed m₁ same l static =
          subst (λ f. IsReverseOrder f (reverse l))
            (fun_ext (λ a. dependencies_in-graph_of a m₀ ∙ sym (deps_of-same a m₁ m₀ (same a))))
            (reverse-IsReverseOrder (graph_of m₀) l [] static tt)

      runs :
          (l : List Text) (m₁ : PackageMap) (s : Selection) (r : PackageMap)
          → sorter.static_order (graph_of m₀) ≡ some l
          → disable_all disabled no_numpy l m₀ ≡ ok m₁
          → select_loop
              (reverse l)
              (record { requested_with_deps = requested; disabled_packages = []; pkg_map = m₁ })
            ≡ ok s
          → restrict s.requested_with_deps s.pkg_map ≡ ok r
          → select_collected sorter requested disabled no_numpy m₀ ≡ ok r
      runs l m₁ s r e run₁ run₂ run₃ =
          unfold select_collected in rw e (rw run₁ (rw run₂ (rw run₃ refl)))

  select_collected-Selects :
      Selects all_recipes requested disabled no_numpy
        (select_collected sorter requested disabled no_numpy m₀)
  select_collected-Selects = elim (Option-cases (sorter.static_order (graph_of m₀))) [
    | inl cycle ↦ unfold select_collected in rw cycle (inr refl)
    | inr (l, e) ↦
        let (r, run, graph) = after_order l e in
        subst (Selects all_recipes requested disabled no_numpy) (sym run) (m₀, collected, graph)
  ]

-- Whatever orders sets and the sorter choose, the loops return: no KeyError is raised and no assertion
-- fails. The result is the graph of the packages collected: it has the requested packages that are not
-- disabled, by themselves or by a dependency, and the dependencies of those, and no others; each is the
-- package that was collected, and has as host dependents the packages of the result that it is a host
-- dependency of. Or the call raises ValueError for a name with no recipe, or CycleError. Each recipe is
-- filed under its name.
pub select_graph_lem :
    (set : SetPop) (sorter : Sorter) (all_recipes : Dict Text MetaConfig)
    (requested disabled : List Text)
    → IsNamed all_recipes
    → Selects all_recipes
        (discard no_numpy_name requested)
        disabled
        (elem no_numpy_name requested)
        (select_graph set sorter all_recipes requested disabled)
unfolding select_graph
select_graph_lem set sorter all_recipes requested disabled named =
    by_result (collect set all_recipes (suc (length all_recipes)) names [])
      (collect_lem set all_recipes names named)
  where
    names : List Text
    names = discard no_numpy_name requested

    by_result :
        (c : Result PackageMap)
        → Collects all_recipes names c
        → Selects all_recipes names disabled
            (elem no_numpy_name requested)
            (c >>= select_collected sorter names disabled (elem no_numpy_name requested))
    by_result (ok m₀) h =
        select_collected-Selects sorter all_recipes names disabled (elem no_numpy_name requested) m₀
          h
    by_result (err x) h = inl h
