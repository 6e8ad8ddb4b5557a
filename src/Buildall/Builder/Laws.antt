-- ===== src/Buildall/Builder/Laws.antt =====
-- Every state that the threads of `_GraphBuilder` reach.
use pyodide.Base.{
  ◌+◌, ◌≤◌, Text, ◌≡◌, true, List, [], ◌∷◌, ◌++◌, Option, none, some, elem, elem-nil, text_eq, All,
  arith, Exception, ap, subst, ◌∙◌, ok, beq_refl,
}
use pyodide.Buildall.Package.{Package, PackageMap}
use pyodide.Buildall.Builder.{
  Builder, receive, start_builder, Step, take, finish, exit, get, Reachable, here, there,
}
use pyodide.Base.Totals.{total, total-split, All-split}
use pyodide.Buildall.Builder.Invariant.{named, places, done, rust_held, IsKnown, Inv, IsPrepared}
use pyodide.Buildall.Builder.Threads.{enter-Inv, report-Inv, leave-Inv}
use pyodide.Buildall.Builder.Receive.{receive-Inv, elem-is_empty}
use pyodide.Buildall.Builder.Start.{start-Inv}

-- What holds of a state of the build.
pub record IsSafe (pkg_map : PackageMap) (needs : List Text) (s : Builder) : Type 0 where
  -- No two Rust packages are built at once.
  pub one_rust : rust_held s ≤ 1
  -- A package that is to be built is queued, built or received at most once.
  pub placed_once : (a : Text) → elem a needs ≡ true → places a s ≤ 1
  -- A package is built once its host dependencies that were to be built are received.
  pub in_order :
      (before after : List Package) (pkg : Package) (d : Text)
      → s.building ≡ before ++ pkg ∷ after
      → elem d pkg.host_dependencies ≡ true
      → elem d needs ≡ true
      → 1 ≤ done d s
  -- The main thread finds the name of a built package in the set of each of its dependents.
  pub receives :
      (pkg : Package) (rest : List (Package × Option Exception))
      → s.built_queue ≡ (pkg, none) ∷ rest
      → (t : Builder) × (receive pkg_map pkg none (record s { built_queue = rest }) ≡ ok t)

module _ (pkg_map : PackageMap) (needs : List Text) (prepared : IsPrepared pkg_map needs) where
  step-Inv :
      (s t : Builder) → Step pkg_map s t → Inv pkg_map needs [] [] s → Inv pkg_map needs [] [] t
  step-Inv _ _ (take s before after job e smallest) inv =
      enter-Inv pkg_map needs [] s before after job e inv
  step-Inv _ _ (finish s before after pkg res e) inv =
      report-Inv pkg_map needs [] s before after pkg res e inv
  step-Inv _ _ (exit s before after pkg e) inv = leave-Inv pkg_map needs [] s before after pkg e inv
  step-Inv _ _ (get s t pkg (some x) rest more e run) inv = unfold receive in cc
  step-Inv _ _ (get s t pkg none rest more e run) inv =
      let (r, runs, after) = receive-Inv pkg_map needs prepared s pkg rest [] e inv in
      let same : r ≡ t = cc (runs, run) in subst (Inv pkg_map needs [] []) same after

  Reachable-Inv :
      (s t : Builder)
      → Reachable pkg_map s t
      → Inv pkg_map needs [] [] s
      → Inv pkg_map needs [] [] t
  Reachable-Inv s _ here inv = inv
  Reachable-Inv s _ (there r t reach step) inv = step-Inv r t step (Reachable-Inv s r reach inv)

  Inv-IsSafe : (s : Builder) → Inv pkg_map needs [] [] s → IsSafe pkg_map needs s
  Inv-IsSafe s inv = record {
    one_rust = ground (arith, inv.rust);
    placed_once = λ a n.
        let (p, m) = prepared.found a n in
        let (u, kept, places_of, h) = inv.waiting a p m n in ground (arith, places_of);
    in_order = λ before after pkg d e host n.
        let (m, known) =
          (All-split (IsKnown pkg_map needs) before pkg after
            (subst (All (IsKnown pkg_map needs)) e inv.taken)).0 in
        let (u, kept, places_of, h) = inv.waiting pkg.name pkg m known in
        let here_once : total (named pkg.name) s.building
            ≡ named pkg.name pkg + total (named pkg.name) (before ++ after) =
          ap (total (named pkg.name)) e ∙ total-split (named pkg.name) before pkg after in
        ground (
          arith,
          places_of,
          here_once,
          beq_refl pkg.name,
          h d,
          elem-is_empty d u,
          elem-nil pkg.name,
        );
    receives = λ pkg rest e.
        let (r, runs, after) = receive-Inv pkg_map needs prepared s pkg rest [] e inv in (r, runs);
  }

-- From start to end of a build, whatever the threads do and whichever builds fail: preparing the queue
-- does not raise, and in every state that is reached at most one Rust package is being built, each
-- package to build is queued, built or received at most once, a package is built only when its host
-- dependencies that were to be built are received, and the main thread finds each package that is built
-- in its dependents' sets. The map has each package under its name with its dependents, each once, its
-- host dependencies are in the map, and the packages to build, each once, are closed under dependents.
pub start_builder-IsSafe :
    (pkg_map : PackageMap) (needs : List Text)
    → IsPrepared pkg_map needs
    → (s : Builder) × (start_builder pkg_map needs ≡ ok s)
      × ((t : Builder) → Reachable pkg_map s t → IsSafe pkg_map needs t)
start_builder-IsSafe pkg_map needs prepared =
    let (s, run, inv) = start-Inv pkg_map needs prepared in
    (
      s,
      run,
      λ t reach.
          Inv-IsSafe pkg_map needs prepared t (Reachable-Inv pkg_map needs prepared s t reach inv),
    )
