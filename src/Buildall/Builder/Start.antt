-- ===== src/Buildall/Builder/Start.antt =====
-- The state that `build_from_graph` prepares.
use pyodide.Base.{
  ℕ, ◌+◌, ◌≤◌, Text, ◌≡◌, refl, inl, inr, Bool, true, false, not, ◌&&◌, List, [], ◌∷◌, some, elem,
  elem-nil, count, count-head, length, ◌==◌, text_eq, All, arith, Bool-cases, sym, ap, subst, ok,
  eq_of_beq, beq_refl,
}
use pyodide.Base.Set.{difference, elem-difference}
use pyodide.Base.Dict.{Dict, lookup, put, keys, lookup-put}
use pyodide.Buildall.Package.{Package, PackageMap, get_item}
use pyodide.Buildall.Builder.{
  Builder, idle, is_empty, put_job, all_unbuilt, subtract_built, fill_queue, start_builder,
}
use pyodide.Base.Totals.{total}
use pyodide.Buildall.Builder.Invariant.{one_if, named, IsKnown, Inv, IsPrepared}

lookup-all_unbuilt :
    (a : Text) (m : PackageMap) (p : Package)
    → lookup a m ≡ some p
    → lookup a (all_unbuilt m) ≡ some p.unbuilt_host_dependencies
unfolding lookup all_unbuilt
lookup-all_unbuilt a [] p h = cc
lookup-all_unbuilt a ((b, q) ∷ m) p h = elim (Bool-cases (a == b)) [
  | inl same ↦
      let e : q ≡ p = ground arith in rw same (ap (λ r. some r.unbuilt_host_dependencies) e)
  | inr other ↦ rw other (lookup-all_unbuilt a m p (ground arith))
]

-- A package's set after the difference is taken, or before.
abbrev IsLess : List Text → Bool → List Text → List Text → Type 0
IsLess already b u v = (d : Text) → elem d v ≡ (elem d u && not (b && elem d already))

subtracted :
    (already names : List Text) (m : Dict Text (List Text))
    → ((a : Text) → elem a names ≡ true → (u : List Text) × (lookup a m ≡ some u))
    → (r : Dict Text (List Text)) × (subtract_built already names m ≡ ok r)
      × ((a : Text) (u : List Text)
          → lookup a m ≡ some u
          → (v : List Text) × (lookup a r ≡ some v) × IsLess already (elem a names) u v)
unfolding subtract_built get_item elem
subtracted already [] m present = (m, refl, λ a u h. (u, h, λ d. ground arith))
subtracted already (name ∷ names) m present =
    let (u, e) = present name (ground (arith, beq_refl name)) in
    let v = difference u already in
    let (r, run, h) = subtracted already names (put name v m) (λ a k.
      elim (Bool-cases (a == name)) [
        | inl same ↦ (v, ground (arith, lookup-put a name v m))
        | inr other ↦
            let (w, f) = present a (ground arith) in (w, ground (arith, lookup-put a name v m))
      ]) in
    (
      r,
      rw e run,
      λ a x k. elim (Bool-cases (a == name)) [
        | inl same ↦
            let (w, f, g) = h a v (ground (arith, lookup-put a name v m)) in
            let known : lookup a m ≡ some u =
              subst (λ b. lookup b m ≡ some u) (sym (eq_of_beq a name same)) e in
            let equal : x ≡ u = ground (arith, known, k) in
            (w, f, λ d. ground (arith, g d, elem-difference d u already, ap (elem d) equal))
        | inr other ↦
            let (w, f, g) = h a x (ground (arith, lookup-put a name v m)) in
            (w, f, λ d. ground (arith, g d))
      ],
    )

-- What the loop that fills the queue has queued: the packages of `names` that wait for none.
module _ (pkg_map : PackageMap) (needs : List Text) (prepared : IsPrepared pkg_map needs) where
  filled :
      (names : List Text) (s : Builder)
      → ((a : Text) → elem a names ≡ true → elem a needs ≡ true)
      → ((a : Text) → count a names ≤ 1)
      → ((a : Text) → elem a needs ≡ true → (u : List Text) × (lookup a s.unbuilt ≡ some u))
      → All (λ j. IsKnown pkg_map needs j.1) s.build_queue
      → (queue : List (ℕ × Package)) × (fill_queue pkg_map names s
          ≡ ok (record s { build_queue = queue }))
        × All (λ j. IsKnown pkg_map needs j.1) queue
        × ((a : Text) (u : List Text)
            → lookup a s.unbuilt ≡ some u
            → total (λ j. named a j.1) queue
              ≡ total (λ j. named a j.1) s.build_queue + one_if (elem a names && is_empty u))
  unfolding fill_queue put_job get_item total elem
  filled [] s within once waits known = (s.build_queue, refl, known, λ a u h. omega arith)
  filled (name ∷ names) s within once waits known =
      let (alone, fewer) = count-head name names once in
      let needed = within name (ground (arith, beq_refl name)) in
      let (p, m) = prepared.found name needed in
      let (u, e) = waits name needed in
      let right = prepared.named_right name p m in
      let pkg_known : IsKnown pkg_map needs p =
        subst (λ b. (lookup b pkg_map ≡ some p) × (elem b needs ≡ true)) (sym right) (m, needed) in
      elim (Bool-cases (is_empty u)) [
        | inl empty ↦
            let (queue, run, all_known, sum) =
              filled names (put_job p s) (λ a h. within a (ground arith)) fewer waits
                (pkg_known, known) in
            (
              queue,
              rw (m, e, empty) run,
              all_known,
              λ a v h. elim (Bool-cases (a == name)) [
                | inl same ↦
                    let gone : elem a names ≡ false =
                      subst (λ b. elem b names ≡ false) (sym (eq_of_beq a name same)) alone in
                    let here : lookup a s.unbuilt ≡ some u =
                      subst (λ b. lookup b s.unbuilt ≡ some u) (sym (eq_of_beq a name same)) e in
                    let equal : v ≡ u = ground (arith, here, h) in
                    ground (arith, sum a v h, right, gone, ap is_empty equal)
                | inr other ↦ ground (arith, sum a v h, right)
              ],
            )
        | inr more ↦
            let (queue, run, all_known, sum) =
              filled names s (λ a h. within a (ground arith)) fewer waits known in
            (
              queue,
              rw (m, e, more) run,
              all_known,
              λ a v h. elim (Bool-cases (a == name)) [
                | inl same ↦
                    let gone : elem a names ≡ false =
                      subst (λ b. elem b names ≡ false) (sym (eq_of_beq a name same)) alone in
                    let here : lookup a s.unbuilt ≡ some u =
                      subst (λ b. lookup b s.unbuilt ≡ some u) (sym (eq_of_beq a name same)) e in
                    let equal : v ≡ u = ground (arith, here, h) in
                    ground (arith, sum a v h, right, gone, ap is_empty equal)
                | inr other ↦ ground (arith, sum a v h)
              ],
            )
      ]

  -- The state from which the threads start.
  pub start-Inv : (s : Builder) × (start_builder pkg_map needs ≡ ok s) × Inv pkg_map needs [] [] s
  unfolding start_builder total
  start-Inv =
      let already = difference (keys pkg_map) needs in
      let (r, run, less) = subtracted already needs (all_unbuilt pkg_map) (λ a n.
        let (p, m) = prepared.found a n in
        (p.unbuilt_host_dependencies, lookup-all_unbuilt a pkg_map p m)) in
      let waits : (a : Text) → elem a needs ≡ true → (u : List Text) × (lookup a r ≡ some u) =
        λ a n.
          let (p, m) = prepared.found a n in
          let (v, f, g) = less a p.unbuilt_host_dependencies (lookup-all_unbuilt a pkg_map p m) in
          (v, f) in
      let (queue, fill, known, sum) =
        filled needs (idle r (length already)) (λ a n. n) prepared.once waits tt in
      (
        record (idle r (length already)) { build_queue = queue },
        rw run fill,
        record {
          queued = known;
          taken = tt;
          results = tt;
          waiting = λ a p m n.
              let (v, f, g) =
                less a p.unbuilt_host_dependencies (lookup-all_unbuilt a pkg_map p m) in
              (
                v,
                f,
                ground (arith, sum a v f),
                λ d. ground (
                  arith,
                  g d,
                  elem-difference d (keys pkg_map) needs,
                  prepared.fresh d a p m,
                  prepared.held_deps d a p m,
                  elem-nil a,
                ),
              );
          rust = omega arith;
        },
      )
