-- ===== src/Buildall/Builder/Threads.antt =====
-- The steps of a thread of `_GraphBuilder`.
use pyodide.Base.{
  ℕ, ◌+◌, Text, ◌≡◌, inl, inr, ◌&&◌, List, [], ◌∷◌, ◌++◌, Option, count, text_eq, All, arith,
  Bool-cases, Exception, ap, subst, ◌∙◌,
}
use pyodide.Buildall.Package.{Package, PackageMap, is_rust_package}
use pyodide.Buildall.Builder.{Builder, Job, enter, put_job, report, leave}
use pyodide.Base.Totals.{total, total-append, total-split, All-split, All-append}
use pyodide.Buildall.Builder.Invariant.{named, is_rust, IsKnown, Inv}

module _ (pkg_map : PackageMap) (needs : List Text) (q : Text) where
  pub enter-Inv :
      (s : Builder) (before after : List Job) (job : Job)
      → s.build_queue ≡ before ++ job ∷ after
      → Inv pkg_map needs q [] s
      → Inv pkg_map needs q [] (enter job.1 (record s { build_queue = before ++ after }))
  unfolding enter put_job total
  enter-Inv s before after job e inv =
      elim (Bool-cases (is_rust_package job.1.meta && s.building_rust_pkg)) [
        | inl busy ↦ rw busy (record {
          queued = parts;
          taken = inv.taken;
          results = inv.results;
          waiting = λ a p m n.
              let (u, kept, count, h) = inv.waiting a p m n in
              (u, kept, omega (arith, count, queue_total a), h);
          rust = inv.rust;
        })
        | inr free ↦ rw free (record {
          queued = parts.1;
          taken = (parts.0, inv.taken);
          results = inv.results;
          waiting = λ a p m n.
              let (u, kept, count, h) = inv.waiting a p m n in
              (u, kept, omega (arith, count, queue_total a), h);
          rust = ground (arith, inv.rust);
        })
      ]
    where
      parts : All (λ j. IsKnown pkg_map needs j.1) (job ∷ (before ++ after))
      parts =
          All-split (λ j. IsKnown pkg_map needs j.1) before job after
            (subst (All (λ j. IsKnown pkg_map needs j.1)) e inv.queued)

      queue_total :
          (a : Text)
          → total (λ j. named a j.1) s.build_queue
            ≡ named a job.1 + total (λ j. named a j.1) (before ++ after)
      queue_total a =
          ap (total (λ j. named a j.1)) e ∙ total-split (λ j. named a j.1) before job after

  pub report-Inv :
      (s : Builder) (before after : List Package) (pkg : Package) (res : Option Exception)
      → s.building ≡ before ++ pkg ∷ after
      → Inv pkg_map needs q [] s
      → Inv pkg_map needs q [] (report pkg res (record s { building = before ++ after }))
  unfolding report total
  report-Inv s before after pkg res e inv = record {
    queued = inv.queued;
    taken = parts.1;
    results =
        All-append (λ x. IsKnown pkg_map needs x.0) s.built_queue ((pkg, res) ∷ []) inv.results
          (parts.0, tt);
    waiting = λ a p m n.
        let (u, kept, count, h) = inv.waiting a p m n in
        (
          u,
          kept,
          omega (
            arith,
            count,
            building_total (named a),
            total-append (λ x. named a x.0) s.built_queue ((pkg, res) ∷ []),
          ),
          h,
        );
    rust = omega (arith, building_total is_rust, inv.rust);
  }
    where
      parts : All (IsKnown pkg_map needs) (pkg ∷ (before ++ after))
      parts =
          All-split (IsKnown pkg_map needs) before pkg after
            (subst (All (IsKnown pkg_map needs)) e inv.taken)

      building_total : (f : Package → ℕ) → total f s.building ≡ f pkg + total f (before ++ after)
      building_total f = ap (total f) e ∙ total-split f before pkg after

  pub leave-Inv :
      (s : Builder) (before after : List Package) (pkg : Package)
      → s.leaving ≡ before ++ pkg ∷ after
      → Inv pkg_map needs q [] s
      → Inv pkg_map needs q [] (leave pkg (record s { leaving = before ++ after }))
  unfolding leave total
  leave-Inv s before after pkg e inv = elim (Bool-cases (is_rust_package pkg.meta)) [
    | inl rust ↦ rw rust (record {
      queued = inv.queued;
      taken = inv.taken;
      results = inv.results;
      waiting = inv.waiting;
      rust = ground (arith, leaving_total, inv.rust);
    })
    | inr other ↦ rw other (record {
      queued = inv.queued;
      taken = inv.taken;
      results = inv.results;
      waiting = inv.waiting;
      rust = ground (arith, leaving_total, inv.rust);
    })
  ]
    where
      leaving_total : total is_rust s.leaving ≡ is_rust pkg + total is_rust (before ++ after)
      leaving_total = ap (total is_rust) e ∙ total-split is_rust before pkg after
