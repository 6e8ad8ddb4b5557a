-- ===== src/Buildall/Rebuild/Laws.antt =====
-- The packages that are marked: the least set that has those to rebuild and the dependents of its members.
use pyodide.Base.{
  ℕ, zero, suc, ◌≤◌, ◌<◌, Text, text_eq, ◌≡◌, refl, sym, ap, ◌∙◌, subst, inl, inr, Bool, true,
  false, not, List, [], ◌∷◌, some, elem, elem-cons, elem-nil, filter, length, length-filter-le,
  length-filter-lt, length-filter-le_all, All, arith, Bool-cases, ◌==◌, eq_of_beq, beq_refl, Result,
  ok,
}
use pyodide.Base.Set.{add, elem-add}
use pyodide.Base.Dict.{lookup, keys, values, elem-keys}
use pyodide.Buildall.Package.{Package, PackageMap, get_item}
use pyodide.Buildall.Rebuild.{
  mark_dependents, mark_package_needs_build, mark_each, generate_needs_build_set,
}

module _ (pkg_map : PackageMap) where
  abbrev pub Knows : Package → Type 0
  Knows pkg = lookup pkg.name pkg_map ≡ some pkg

  -- Each package is under its name, and its dependents are in the map.
  pub record IsClosed : Type 0 where
    pub named_right : (a : Text) (pkg : Package) → lookup a pkg_map ≡ some pkg → pkg.name ≡ a
    pub all_known : All Knows (values pkg_map)
    pub dependents :
        (a d : Text) (pkg : Package)
        → lookup a pkg_map ≡ some pkg
        → elem d pkg.host_dependents ≡ true
        → (p : Package) × (lookup d pkg_map ≡ some p)

  -- The packages that are not marked yet.
  unmarked : List Text → ℕ
  unmarked s = length (filter (λ a. not (elem a s)) (keys pkg_map))

  -- A predicate that passes from a package to its dependents.
  abbrev pub Passes : (Text → Bool) → Type 0
  Passes q =
      (a d : Text) (pkg : Package)
      → lookup a pkg_map ≡ some pkg
      → q a ≡ true
      → elem d pkg.host_dependents ≡ true
      → q d ≡ true

  module _ (closed : IsClosed) (q : Text → Bool) (passes : Passes q) where
    -- The set grows, the dependents of what is new are in it, and the predicate holds of what is new.
    record Grows (s r : List Text) : Type 0 where
      kept : (a : Text) → elem a s ≡ true → elem a r ≡ true
      full :
          (a d : Text) (pkg : Package)
          → elem a r ≡ true
          → elem a s ≡ false
          → lookup a pkg_map ≡ some pkg
          → elem d pkg.host_dependents ≡ true
          → elem d r ≡ true
      least : (a : Text) → elem a r ≡ true → elem a s ≡ false → q a ≡ true

    Grows-refl : (s : List Text) → Grows s s
    Grows-refl s = record { kept = λ a h. h; full = λ a d pkg h k. cc; least = λ a h k. cc }

    Grows-trans : (s r t : List Text) → Grows s r → Grows r t → Grows s t
    Grows-trans s r t g h = record {
      kept = λ a m. h.kept a (g.kept a m);
      full = λ a d pkg m n l e. elim (Bool-cases (elem a r)) [
        | inl early ↦ h.kept d (g.full a d pkg early n l e)
        | inr late ↦ h.full a d pkg m late l e
      ];
      least = λ a m n. elim (Bool-cases (elem a r)) [
        | inl early ↦ g.least a early n
        | inr late ↦ h.least a m late
      ];
    }

    unmarked-le : (s r : List Text) → Grows s r → unmarked r ≤ unmarked s
    unfolding unmarked
    unmarked-le s r g =
        length-filter-le (λ a. not (elem a s)) (λ a. not (elem a r)) (keys pkg_map)
          (λ a h. ground (arith, g.kept a))

    -- What a call on one package does that returns.
    abbrev Marks : Package → List Text → Result (List Text) → Type 0
    Marks pkg s m = (r : List Text) × (m ≡ ok r) × (elem pkg.name r ≡ true) × Grows s r

    dependents_marked :
        (depth : ℕ) (mark : Package → List Text → Result (List Text)) (deps s : List Text)
        → ((pkg : Package) (t : List Text)
            → Knows pkg
            → q pkg.name ≡ true
            → unmarked t < depth
            → Marks pkg t (mark pkg t))
        → ((d : Text) → elem d deps ≡ true → (p : Package) × (lookup d pkg_map ≡ some p))
        → ((d : Text) → elem d deps ≡ true → q d ≡ true)
        → unmarked s < depth
        → (r : List Text) × (mark_dependents pkg_map mark deps s ≡ ok r)
          × ((d : Text) → elem d deps ≡ true → elem d r ≡ true)
          × Grows s r
    unfolding mark_dependents get_item
    dependents_marked depth mark [] s marks known holds less =
        (s, refl, λ d h. ground (arith, elem-nil d), Grows-refl s)
    dependents_marked depth mark (dep ∷ deps) s marks known holds less =
        let first : elem dep (dep ∷ deps) ≡ true =
          ground (arith, elem-cons dep dep deps, beq_refl dep) in
        let (p, m) = known dep first in
        let right = closed.named_right dep p m in
        let (t, run, has, grows) =
          marks p s (subst (λ b. lookup b pkg_map ≡ some p) (sym right) m)
            (subst (λ b. q b ≡ true) (sym right) (holds dep first)) less in
        let (r, runs, all_in, grows') =
          dependents_marked depth mark deps t marks
            (λ d h. known d (ground (arith, elem-cons d dep deps)))
            (λ d h. holds d (ground (arith, elem-cons d dep deps)))
            (omega (arith, unmarked-le s t grows, less)) in
        (
          r,
          rw (m, run) runs,
          λ d h. elim (Bool-cases (d == dep)) [
            | inl same ↦
                let back = right ∙ sym (eq_of_beq d dep same) in
                grows'.kept d (subst (λ b. elem b t ≡ true) back has)
            | inr other ↦ all_in d (ground (arith, elem-cons d dep deps))
          ],
          Grows-trans s t r grows grows',
        )

    added_less :
        (pkg : Package) (s : List Text)
        → Knows pkg
        → elem pkg.name s ≡ false
        → unmarked (add pkg.name s) < unmarked s
    unfolding unmarked
    added_less pkg s m fresh =
        length-filter-lt (λ a. not (elem a s)) (λ a. not (elem a (add pkg.name s))) pkg.name
          (keys pkg_map) (λ a h. ground (arith, elem-add a pkg.name s))
          (ground (arith, elem-keys pkg.name pkg_map)) (ground arith)
          (ground (arith, elem-add pkg.name pkg.name s, beq_refl pkg.name))

    entered :
        (pkg : Package) (s r : List Text)
        → Knows pkg
        → q pkg.name ≡ true
        → ((d : Text) → elem d pkg.host_dependents ≡ true → elem d r ≡ true)
        → Grows (add pkg.name s) r
        → Grows s r
    entered pkg s r m holds all_in g = record {
      kept = λ a h. g.kept a (ground (arith, elem-add a pkg.name s));
      full = λ a d p h n l e. elim (Bool-cases (a == pkg.name)) [
        | inl same ↦
            let here : lookup a pkg_map ≡ some pkg =
              subst (λ b. lookup b pkg_map ≡ some pkg) (sym (eq_of_beq a pkg.name same)) m in
            let equal : pkg ≡ p = ground (arith, here, l) in
            all_in d (ap (λ x. elem d x.host_dependents) equal ∙ e)
        | inr other ↦ g.full a d p h (ground (arith, elem-add a pkg.name s)) l e
      ];
      least = λ a h n. elim (Bool-cases (a == pkg.name)) [
        | inl same ↦ subst (λ b. q b ≡ true) (sym (eq_of_beq a pkg.name same)) holds
        | inr other ↦ g.least a h (ground (arith, elem-add a pkg.name s))
      ];
    }

    marked :
        (depth : ℕ) (pkg : Package) (s : List Text)
        → Knows pkg
        → q pkg.name ≡ true
        → unmarked s < depth
        → Marks pkg s (mark_package_needs_build pkg_map depth pkg s)
    unfolding mark_package_needs_build
    marked zero pkg s m holds less = absurd (omega (arith, less))
    marked (suc depth) pkg s m holds less = elim (Bool-cases (elem pkg.name s)) [
      | inl known ↦ rw known (s, refl, known, Grows-refl s)
      | inr fresh ↦
          let (r, run, all_in, g) =
            dependents_marked depth (mark_package_needs_build pkg_map depth) pkg.host_dependents
              (add pkg.name s) (marked depth) (λ d h. closed.dependents pkg.name d pkg m h)
              (λ d h. passes pkg.name d pkg m holds h)
              (omega (arith, added_less pkg s m fresh, less)) in
          rw fresh (
            r,
            run,
            g.kept pkg.name (ground (arith, elem-add pkg.name pkg.name s, beq_refl pkg.name)),
            entered pkg s r m holds all_in g,
          )
    ]

    each_marked :
        (depth : ℕ) (needs_rebuild : Package → Bool) (pkgs : List Package) (s : List Text)
        → ((t : List Text) → unmarked t < depth)
        → All Knows pkgs
        → All (λ p. needs_rebuild p ≡ true → q p.name ≡ true) pkgs
        → (r : List Text) × (mark_each pkg_map depth needs_rebuild pkgs s ≡ ok r)
          × All (λ p. needs_rebuild p ≡ true → elem p.name r ≡ true) pkgs
          × Grows s r
    unfolding mark_each
    each_marked depth needs_rebuild [] s less known holds = (s, refl, tt, Grows-refl s)
    each_marked depth needs_rebuild (pkg ∷ pkgs) s less (m, known) (h, holds) =
        elim (Bool-cases (needs_rebuild pkg)) [
          | inl stale ↦
              let (t, run, has, g) = marked depth pkg s m (h stale) (less s) in
              let (r, runs, all_in, g') = each_marked depth needs_rebuild pkgs t less known holds in
              (r, rw (stale, run) runs, (λ e. g'.kept pkg.name has, all_in), Grows-trans s t r g g')
          | inr kept ↦
              let (r, runs, all_in, g) = each_marked depth needs_rebuild pkgs s less known holds in
              (r, rw kept runs, (λ e. cc, all_in), g)
        ]

    unmarked-le_keys : (s : List Text) → unmarked s ≤ length (keys pkg_map)
    unfolding unmarked
    unmarked-le_keys s = length-filter-le_all (λ a. not (elem a s)) (keys pkg_map)

    set_marked :
        (depth : ℕ) (needs_rebuild : Package → Bool)
        → length (keys pkg_map) < depth
        → All (λ p. needs_rebuild p ≡ true → q p.name ≡ true) (values pkg_map)
        → (r : List Text) × (generate_needs_build_set pkg_map depth needs_rebuild ≡ ok r)
          × All (λ p. needs_rebuild p ≡ true → elem p.name r ≡ true) (values pkg_map)
          × Passes (λ a. elem a r)
          × ((a : Text) → elem a r ≡ true → q a ≡ true)
    unfolding generate_needs_build_set
    set_marked depth needs_rebuild enough holds =
        let (r, run, all_in, g) =
          each_marked depth needs_rebuild (values pkg_map) []
            (λ t. omega (arith, unmarked-le_keys t, enough)) closed.all_known holds in
        (
          r,
          run,
          all_in,
          λ a d pkg l m e. g.full a d pkg m (elem-nil a) l e,
          λ a m. g.least a m (elem-nil a),
        )

-- If more calls than there are packages may be inside each other, the call returns a set: it has the
-- packages that need a rebuild and the dependents of its members, and it is the least such set. Each
-- package is under its name and its dependents are in the map.
pub generate_needs_build_set_lem :
    (pkg_map : PackageMap) (depth : ℕ) (needs_rebuild : Package → Bool)
    → IsClosed pkg_map
    → length (keys pkg_map) < depth
    → (r : List Text) × (generate_needs_build_set pkg_map depth needs_rebuild ≡ ok r)
      × All (λ p. needs_rebuild p ≡ true → elem p.name r ≡ true) (values pkg_map)
      × Passes pkg_map (λ a. elem a r)
      × ((q : Text → Bool)
          → Passes pkg_map q
          → All (λ p. needs_rebuild p ≡ true → q p.name ≡ true) (values pkg_map)
          → (a : Text) → elem a r ≡ true
          → q a ≡ true)
generate_needs_build_set_lem pkg_map depth needs_rebuild closed enough =
    let (r, run, all_in, passes, _) =
      set_marked pkg_map closed (λ a. true) (λ a d pkg l h e. refl) depth needs_rebuild enough
        (trivial (values pkg_map)) in
    (
      r,
      run,
      all_in,
      passes,
      λ q q_passes holds a m.
          let (t, runs, _, _, least) =
            set_marked pkg_map closed q q_passes depth needs_rebuild enough holds in
          let same : r ≡ t = cc (run, runs) in least a (subst (λ x. elem a x ≡ true) same m),
    )
  where
    trivial : (l : List Package) → All (λ p. needs_rebuild p ≡ true → true ≡ true) l
    trivial [] = tt
    trivial (p ∷ l) = (λ h. refl, trivial l)
