-- ===== src/Buildall/Graph/Select/Step.antt =====
-- One round of the selecting loop keeps its invariant.
use pyodide.Base.{
  Text, ◌≡◌, ◌∙◌, Bool, true, false, not, ◌&&◌, List, [], ◌∷◌, Option, none, some, elem, elem-cons,
  text_eq, eq_of_beq, arith,
}
use pyodide.Base.Set.{discard, update, elem-discard, elem-update}
use pyodide.Base.Dict.{lookup, present}
use pyodide.Buildall.Package.{Package, PackageMap}
use pyodide.Buildall.Graph.Disable.Laws.{deps_of, is_disabled}
use pyodide.Buildall.Graph.Select.{Selection}
use pyodide.Buildall.Graph.Select.Dependents.{undepended, dependents_of, Adds}

abbrev pub host_deps_of : Option Package → List Text
host_deps_of none = []
host_deps_of (some p) = p.host_dependencies

-- The map that the disabling loop leaves: packages under their names, closed under dependencies, none
-- enabled with a disabled dependency.
pub record IsReady (m : PackageMap) : Type 0 where
  pub names : (a : Text) (p : Package) → lookup a m ≡ some p → p.name ≡ a
  pub hosts :
      (a d : Text)
      → elem d (host_deps_of (lookup a m)) ≡ true
      → elem d (deps_of (lookup a m)) ≡ true
  pub closed : (a d : Text) → elem d (deps_of (lookup a m)) ≡ true → present d m ≡ true
  pub enabled :
      (a d : Text)
      → is_disabled a m ≡ false
      → elem d (deps_of (lookup a m)) ≡ true
      → is_disabled d m ≡ false

module _ (m₀ : PackageMap) (requested : List Text) where
  -- What holds when the packages `rest` are still to be visited.
  pub record Inv (rest : List Text) (s : Selection) : Type 0 where
    pub same : (a : Text) → undepended (lookup a s.pkg_map) ≡ undepended (lookup a m₀)
    pub in_map : (a : Text) → elem a s.requested_with_deps ≡ true → present a m₀ ≡ true
    pub closed :
        (a d : Text)
        → elem a s.requested_with_deps ≡ true
        → elem a rest ≡ false
        → elem d (deps_of (lookup a m₀)) ≡ true
        → elem d s.requested_with_deps ≡ true
    pub enabled :
        (a : Text)
        → elem a s.requested_with_deps ≡ true
        → elem a rest ≡ false
        → is_disabled a m₀ ≡ false
    pub has_requested :
        (a : Text)
        → elem a requested ≡ true
        → is_disabled a m₀ ≡ false
        → elem a s.requested_with_deps ≡ true
    pub least :
        (Q : Text → Bool)
        → ((a : Text) → elem a requested ≡ true → is_disabled a m₀ ≡ false → Q a ≡ true)
        → ((a d : Text)
            → Q a ≡ true
            → is_disabled a m₀ ≡ false
            → elem d (deps_of (lookup a m₀)) ≡ true
            → Q d ≡ true)
        → (a : Text) → elem a s.requested_with_deps ≡ true
        → is_disabled a m₀ ≡ false
        → Q a ≡ true
    pub dependents :
        (a d : Text)
        → present d m₀ ≡ true
        → elem a (dependents_of (lookup d s.pkg_map)) ≡ (
            elem a s.requested_with_deps
            && (not (elem a rest) && elem d (host_deps_of (lookup a m₀))))

  module _ (b : Text) (rest : List Text) (s : Selection) (ready : IsReady m₀)
      (inv : Inv (b ∷ rest) s) (new : elem b rest ≡ false)
      (after : (d : Text) → elem d (deps_of (lookup b m₀)) ≡ true → elem d rest ≡ true) where
    pub step_disabled :
        (packages : List Text)
        → is_disabled b m₀ ≡ true
        → Inv rest (record s {
          requested_with_deps = discard b s.requested_with_deps;
          disabled_packages = packages;
        })
    step_disabled packages off = record {
      same = inv.same;
      in_map = λ a. ground (arith, inv.in_map a, elem-discard a b s.requested_with_deps);
      closed = λ a d h r e. ground (
        arith,
        inv.closed a d,
        elem-discard a b s.requested_with_deps,
        elem-discard d b s.requested_with_deps,
        elem-cons a b rest,
        eq_of_beq d b,
        ready.enabled a d,
        inv.enabled a,
      );
      enabled = λ a h r.
          ground (arith, inv.enabled a, elem-discard a b s.requested_with_deps, elem-cons a b rest);
      has_requested = λ a.
          ground
            (arith, inv.has_requested a, elem-discard a b s.requested_with_deps, eq_of_beq a b);
      least = λ Q f g a h on.
          inv.least Q f g a (ground (arith, elem-discard a b s.requested_with_deps)) on;
      dependents = λ a d h. ground (
        arith,
        inv.dependents a d,
        elem-discard a b s.requested_with_deps,
        elem-cons a b rest,
        eq_of_beq a b,
      );
    }

    pub step_skipped : elem b s.requested_with_deps ≡ false → Inv rest s
    step_skipped out = record {
      same = inv.same;
      in_map = inv.in_map;
      closed = λ a d h r e. ground (arith, inv.closed a d, elem-cons a b rest, eq_of_beq a b);
      enabled = λ a h r. ground (arith, inv.enabled a, elem-cons a b rest, eq_of_beq a b);
      has_requested = inv.has_requested;
      least = inv.least;
      dependents = λ a d h. ground (arith, inv.dependents a d, elem-cons a b rest, eq_of_beq a b);
    }

    pub step_selected :
        (deps : List Text) (m' : PackageMap)
        → elem b s.requested_with_deps ≡ true
        → is_disabled b m₀ ≡ false
        → deps ≡ deps_of (lookup b m₀)
        → Adds b (host_deps_of (lookup b m₀)) s.pkg_map m'
        → Inv rest
            (record s { requested_with_deps = update deps s.requested_with_deps; pkg_map = m' })
    step_selected deps m' chosen on same_deps adds = rw same_deps (record {
      same = λ a. adds.same a ∙ inv.same a;
      in_map = λ a. ground (
        arith,
        inv.in_map a,
        ready.closed b a,
        elem-update a (deps_of (lookup b m₀)) s.requested_with_deps,
      );
      closed = λ a d h r e. ground (
        arith,
        inv.closed a d,
        after a,
        elem-cons a b rest,
        eq_of_beq a b,
        elem-update a (deps_of (lookup b m₀)) s.requested_with_deps,
        elem-update d (deps_of (lookup b m₀)) s.requested_with_deps,
      );
      enabled = λ a h r. ground (
        arith,
        inv.enabled a,
        after a,
        elem-cons a b rest,
        eq_of_beq a b,
        elem-update a (deps_of (lookup b m₀)) s.requested_with_deps,
      );
      has_requested = λ a h o.
          ground (
            arith,
            inv.has_requested a,
            elem-update a (deps_of (lookup b m₀)) s.requested_with_deps,
          );
      least = λ Q f g a h off. ground (
        arith,
        elem-update a (deps_of (lookup b m₀)) s.requested_with_deps,
        inv.least Q f g a,
        g b a (inv.least Q f g b chosen on) on,
      );
      dependents = λ a d h. ground (
        arith,
        inv.dependents a d,
        adds.dependents a d,
        after a,
        elem-cons a b rest,
        eq_of_beq a b,
        elem-update a (deps_of (lookup b m₀)) s.requested_with_deps,
      );
    })
