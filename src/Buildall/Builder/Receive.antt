-- ===== src/Buildall/Builder/Receive.antt =====
-- The main thread of `_GraphBuilder` on a package that is built: no dependency is missing from the sets
-- that it is removed from.
use pyodide.Base.{
  suc, ◌+◌, ◌≤◌, Text, ◌≡◌, refl, inl, inr, true, false, ◌&&◌, ◌||◌, List, [], ◌∷◌, Option, none,
  some, elem, elem-cons, elem-nil, count, count-head, eqb, ◌==◌, text_eq, if◌then◌else◌, All, arith,
  Bool-cases, Exception, sym, ap, subst, ◌∙◌, ok, eq_of_beq, beq_refl,
}
use pyodide.Base.Set.{discard, elem-discard}
use pyodide.Base.Dict.{lookup, put, lookup-put}
use pyodide.Buildall.Package.{Package, PackageMap, get_item}
use pyodide.Buildall.Builder.{
  Builder, is_empty, put_job, remove_dependency, free_dependents, receive,
}
use pyodide.Base.Totals.{total, All-split}
use pyodide.Buildall.Builder.Invariant.{
  one_if, named, places, done, IsKnown, IsWaiting, Inv, IsPrepared,
}

pub elem-is_empty : (d : Text) (u : List Text) → elem d u ≡ true → is_empty u ≡ false
unfolding elem
elem-is_empty d [] h = cc
elem-is_empty d (x ∷ u) h = refl

module _ (pkg_map : PackageMap) (needs : List Text) (q : Text) (needed : elem q needs ≡ true) where
  -- The state after one round of the loop.
  abbrev freed : Package → Text → List Text → Builder → Builder
  freed p x left s =
      if is_empty left
      then put_job p (record s { unbuilt = put x left s.unbuilt })
      else record s { unbuilt = put x left s.unbuilt }

  freed-Inv :
      (x : Text) (others : List Text) (s : Builder) (p : Package) (u : List Text)
      → Inv pkg_map needs q (x ∷ others) s
      → IsKnown pkg_map needs p
      → p.name ≡ x
      → elem x others ≡ false
      → eqb (done q s) 0 ≡ false
      → lookup x s.unbuilt ≡ some u
      → elem q u ≡ true
      → Inv pkg_map needs q others (freed p x (discard q u) s)
  unfolding put_job total
  freed-Inv x others s p u inv known name once gone found waits =
      elim (Bool-cases (is_empty (discard q u))) [
        | inl last ↦ rw last (record {
          queued = (known, inv.queued);
          taken = inv.taken;
          results = inv.results;
          waiting = λ a pa m n. elim (Bool-cases (a == x)) [
            | inl same ↦
                let (none_yet, members) = removed a pa same m n in
                (
                  discard q u,
                  ground (arith, lookup-put a x (discard q u) s.unbuilt),
                  ground (arith, none_yet, name, last),
                  members,
                )
            | inr other ↦
                let (v, e, k, h) = kept a pa m n other in (v, e, ground (arith, k, name), h)
          ];
          rust = inv.rust;
        })
        | inr more ↦ rw more (record {
          queued = inv.queued;
          taken = inv.taken;
          results = inv.results;
          waiting = λ a pa m n. elim (Bool-cases (a == x)) [
            | inl same ↦
                let (none_yet, members) = removed a pa same m n in
                (
                  discard q u,
                  ground (arith, lookup-put a x (discard q u) s.unbuilt),
                  ground (arith, none_yet, more),
                  members,
                )
            | inr other ↦ kept a pa m n other
          ];
          rust = inv.rust;
        })
      ]
    where
      kept :
          (a : Text) (pa : Package)
          → lookup a pkg_map ≡ some pa
          → elem a needs ≡ true
          → (a == x) ≡ false
          → IsWaiting pkg_map needs q others a pa
              (record s { unbuilt = put x (discard q u) s.unbuilt })
      kept a pa m n other =
          let (v, e, k, h) = inv.waiting a pa m n in
          (
            v,
            ground (arith, lookup-put a x (discard q u) s.unbuilt),
            k,
            λ d. ground (arith, h d, elem-cons a x others),
          )

      absent : (a : Text) → (a == x) ≡ true → elem a others ≡ false
      absent a same = subst (λ b. elem b others ≡ false) (sym (eq_of_beq a x same)) once

      done_with : (d : Text) → (d == q) ≡ true → eqb (done d s) 0 ≡ false
      done_with d same = subst (λ b. eqb (done b s) 0 ≡ false) (sym (eq_of_beq d q same)) gone

      found_at : (a : Text) → (a == x) ≡ true → lookup a s.unbuilt ≡ some u
      found_at a same = subst (λ b. lookup b s.unbuilt ≡ some u) (sym (eq_of_beq a x same)) found

      removed :
          (a : Text) (pa : Package)
          → (a == x) ≡ true
          → lookup a pkg_map ≡ some pa
          → elem a needs ≡ true
          → (places a s ≡ 0)
            × ((d : Text)
                → elem d (discard q u) ≡ (
                    elem d pa.host_dependencies
                    && (elem d needs && (eqb (done d s) 0 || (d == q && elem a others)))))
      removed a pa same m n =
          let (v, e, k, h) = inv.waiting a pa m n in
          let equal : v ≡ u = ground (arith, e, found_at a same) in
          let empty : is_empty v ≡ false =
            subst (λ w. is_empty w ≡ false) (sym equal) (elem-is_empty q u waits) in
          let members : (d : Text) → elem d v ≡ elem d u = λ d. ap (elem d) equal in
          (
            k ∙ ap one_if empty,
            λ d. ground (
              arith,
              h d,
              members d,
              elem-discard d q u,
              elem-cons a x others,
              absent a same,
              done_with d,
            ),
          )

  -- A dependent that is to be built and waits for `q`.
  IsDependent : Text → Type 0
  IsDependent x =
      (elem x needs ≡ true)
      × ((p : Package) × (lookup x pkg_map ≡ some p)
          × (p.name ≡ x)
          × (elem q p.host_dependencies ≡ true))

  one_freed :
      (x : Text) (others : List Text) (s : Builder)
      → Inv pkg_map needs q (x ∷ others) s
      → IsDependent x
      → elem x others ≡ false
      → eqb (done q s) 0 ≡ false
      → (t : Builder) × (free_dependents pkg_map q (x ∷ others) s
          ≡ free_dependents pkg_map q others t)
        × Inv pkg_map needs q others t
        × (eqb (done q t) 0 ≡ false)
  unfolding free_dependents put_job get_item remove_dependency IsDependent
  one_freed x others s inv (n, (p, m, name, host)) once gone =
      let (u, found, k, h) = inv.waiting x p m n in
      let waits : elem q u ≡ true =
        ground (arith, h q, beq_refl q, elem-cons x x others, beq_refl x) in
      let known : IsKnown pkg_map needs p =
        subst (λ b. (lookup b pkg_map ≡ some p) × (elem b needs ≡ true)) (sym name) (m, n) in
      (
        freed p x (discard q u) s,
        rw (m, found, waits) refl,
        freed-Inv x others s p u inv known name once gone found waits,
        elim (Bool-cases (is_empty (discard q u))) [ inl e ↦ rw e gone | inr e ↦ rw e gone ],
      )

  all_freed :
      (others : List Text) (s : Builder)
      → Inv pkg_map needs q others s
      → ((x : Text) → elem x others ≡ true → IsDependent x)
      → ((x : Text) → count x others ≤ 1)
      → eqb (done q s) 0 ≡ false
      → (t : Builder) × (free_dependents pkg_map q others s ≡ ok t) × Inv pkg_map needs q [] t
  all_freed [] s inv deps once gone = unfold free_dependents in (s, refl, inv)
  all_freed (x ∷ others) s inv deps once gone =
      let (alone, fewer) = count-head x others once in
      let (t, run, inv', gone') =
        one_freed x others s inv (deps x (ground (arith, elem-cons x x others, beq_refl x))) alone
          gone in
      let (r, rest, done_inv) =
        all_freed others t inv' (λ y m. deps y (ground (arith, elem-cons y x others))) fewer
          gone' in
      (r, run ∙ rest, done_inv)

-- The names that a package's dependents wait for are removed, and no KeyError is raised.
module _ (pkg_map : PackageMap) (needs : List Text) (prepared : IsPrepared pkg_map needs) where
  received :
      (s : Builder) (pkg : Package) (res : Option Exception)
      (rest : List (Package × Option Exception))
      → s.built_queue ≡ (pkg, res) ∷ rest
      → Inv pkg_map needs pkg.name [] s
      → (Inv pkg_map needs pkg.name pkg.host_dependents (record s {
        built_queue = rest;
        num_built = suc s.num_built;
        received = pkg ∷ s.received;
      }))
        × (eqb (named pkg.name pkg + done pkg.name s) 0 ≡ false)
  unfolding total
  received s pkg res rest e inv = (
    record {
      queued = inv.queued;
      taken = inv.taken;
      results = parts.1;
      waiting = λ a p m n.
          let (u, kept, places_of, h) = inv.waiting a p m n in
          (
            u,
            kept,
            omega (arith, places_of, built_total a),
            λ d. elim (Bool-cases (d == pkg.name)) [
              | inl same ↦
                  let back = sym (eq_of_beq d pkg.name same) in
                  let zero_done : done d s ≡ 0 = subst (λ b. done b s ≡ 0) back none_done in
                  let listed : elem d p.host_dependencies ≡ true
                      → elem a pkg.host_dependents ≡ true =
                    subst
                      (λ b. elem b p.host_dependencies ≡ true → elem a pkg.host_dependents ≡ true)
                      back (prepared.complete pkg.name a pkg p parts.0.0 m) in
                  ground (arith, h d, zero_done, listed, elem-nil a)
              | inr other ↦ ground (arith, h d, elem-nil a)
            ],
          );
      rust = inv.rust;
    },
    ground (arith, beq_refl pkg.name),
  )
    where
      parts : All (λ x. IsKnown pkg_map needs x.0) ((pkg, res) ∷ rest)
      parts = subst (All (λ x. IsKnown pkg_map needs x.0)) e inv.results

      built_total :
          (a : Text)
          → total (λ x. named a x.0) s.built_queue ≡ named a pkg + total (λ x. named a x.0) rest
      built_total a = ap (total (λ x. named a x.0)) e

      none_done : done pkg.name s ≡ 0
      none_done =
          let (u, kept, places_of, h) = inv.waiting pkg.name pkg parts.0.0 parts.0.1 in
          ground (arith, places_of, built_total pkg.name, beq_refl pkg.name)

  pub receive-Inv :
      (s : Builder) (pkg : Package) (rest : List (Package × Option Exception)) (q : Text)
      → s.built_queue ≡ (pkg, none) ∷ rest
      → Inv pkg_map needs q [] s
      → (t : Builder) × (receive pkg_map pkg none (record s { built_queue = rest }) ≡ ok t)
        × Inv pkg_map needs q [] t
  unfolding receive total IsDependent
  receive-Inv s pkg rest q e inv =
      let inv' = renamed q pkg.name s inv in
      let (known, needed) =
        (All-split (λ x. IsKnown pkg_map needs x.0) [] (pkg, none) rest
          (subst (All (λ x. IsKnown pkg_map needs x.0)) e inv.results)).0 in
      let (start, gone) = received s pkg none rest e inv' in
      let (t, run, end) =
        all_freed pkg_map needs pkg.name needed pkg.host_dependents _ start
          (λ x h.
            let (n, (p, m, host)) = prepared.dependent pkg.name x pkg known needed h in
            (n, (p, m, prepared.named_right x p m, host)))
          (λ x. prepared.distinct pkg.name x pkg known) gone in
      (t, run, renamed pkg.name q t end)
    where
      renamed : (q r : Text) (s : Builder) → Inv pkg_map needs q [] s → Inv pkg_map needs r [] s
      renamed q r s inv = record {
        queued = inv.queued;
        taken = inv.taken;
        results = inv.results;
        waiting = λ a p m n.
            let (u, kept, places_of, h) = inv.waiting a p m n in
            (u, kept, places_of, λ d. ground (arith, h d, elem-nil a));
        rust = inv.rust;
      }
