-- ===== src/Buildall/Builder/Invariant.antt =====
-- The states of `_GraphBuilder`: where each package is, what it waits for, and the Rust lock.
use pyodide.Base.{
  ℕ, ◌+◌, ◌≤◌, Text, ◌≡◌, Bool, true, ◌&&◌, ◌||◌, List, some, elem, count, eqb, ◌==◌, text_eq,
  if◌then◌else◌, All,
}
use pyodide.Base.Dict.{lookup, keys}
use pyodide.Buildall.Package.{Package, PackageMap, is_rust_package}
use pyodide.Buildall.Builder.{Builder, is_empty}
use pyodide.Base.Totals.{total}

abbrev pub one_if : Bool → ℕ
one_if b = if b then 1 else 0

abbrev pub named : Text → Package → ℕ
named a pkg = one_if (a == pkg.name)

-- How often a package is in the queues, in a thread's hands or received.
abbrev pub places : Text → Builder → ℕ
places a s =
    total (λ j. named a j.1) s.build_queue
    + (total (named a) s.building
        + (total (λ e. named a e.0) s.built_queue + total (named a) s.received))

abbrev pub done : Text → Builder → ℕ
done a s = total (named a) s.received

abbrev pub is_rust : Package → ℕ
is_rust pkg = one_if (is_rust_package pkg.meta)

-- The Rust packages in the hands of threads.
abbrev pub rust_held : Builder → ℕ
rust_held s = total is_rust s.building + total is_rust s.leaving

-- The packages to build, with what `generate_dependency_graph` and `generate_needs_build_set` give.
pub record IsPrepared (pkg_map : PackageMap) (needs : List Text) : Type 0 where
  pub named_right : (a : Text) (pkg : Package) → lookup a pkg_map ≡ some pkg → pkg.name ≡ a
  pub dependent :
      (q a : Text) (pkg : Package)
      → lookup q pkg_map ≡ some pkg
      → elem q needs ≡ true
      → elem a pkg.host_dependents ≡ true
      → (elem a needs ≡ true)
        × ((p : Package) × (lookup a pkg_map ≡ some p) × (elem q p.host_dependencies ≡ true))
  pub complete :
      (q a : Text) (pkg p : Package)
      → lookup q pkg_map ≡ some pkg
      → lookup a pkg_map ≡ some p
      → elem q p.host_dependencies ≡ true
      → elem a pkg.host_dependents ≡ true
  pub held_deps :
      (d a : Text) (p : Package)
      → lookup a pkg_map ≡ some p
      → elem d p.host_dependencies ≡ true
      → elem d (keys pkg_map) ≡ true
  pub fresh :
      (d a : Text) (p : Package)
      → lookup a pkg_map ≡ some p
      → elem d p.unbuilt_host_dependencies ≡ elem d p.host_dependencies
  pub found : (a : Text) → elem a needs ≡ true → (p : Package) × (lookup a pkg_map ≡ some p)
  pub once : (a : Text) → count a needs ≤ 1
  pub distinct :
      (q a : Text) (pkg : Package) → lookup q pkg_map ≡ some pkg → count a pkg.host_dependents ≤ 1

module _ (pkg_map : PackageMap) (needs : List Text) where
  abbrev pub IsKnown : Package → Type 0
  IsKnown pkg = (lookup pkg.name pkg_map ≡ some pkg) × (elem pkg.name needs ≡ true)

  -- Of `a` the set of host dependencies that are to be built and not received, those that the loop over
  -- the dependents of `q` has yet to remove included.
  abbrev pub IsWaiting : Text → List Text → Text → Package → Builder → Type 0
  IsWaiting q others a p s =
      (u : List Text) × (lookup a s.unbuilt ≡ some u)
      × (places a s ≡ one_if (is_empty u))
      × ((d : Text)
          → elem d u ≡ (
              elem d p.host_dependencies
              && (elem d needs && (eqb (done d s) 0 || (d == q && elem a others)))))

  pub record Inv (q : Text) (others : List Text) (s : Builder) : Type 0 where
    pub queued : All (λ j. IsKnown j.1) s.build_queue
    pub taken : All IsKnown s.building
    pub results : All (λ e. IsKnown e.0) s.built_queue
    pub waiting :
        (a : Text) (p : Package)
        → lookup a pkg_map ≡ some p
        → elem a needs ≡ true
        → IsWaiting q others a p s
    pub rust : rust_held s ≡ one_if s.building_rust_pkg
