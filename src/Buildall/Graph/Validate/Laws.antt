-- ===== src/Buildall/Graph/Validate/Laws.antt =====
-- `_validate_package_map`: the maps that it accepts.
use pyodide.Base.{
  Text, ◌≡◌, refl, ◌⊎◌, inl, inr, Bool-cases, if◌then◌else◌, Bool, true, false, not, ◌&&◌, List, [],
  ◌∷◌, Option, none, some, text_eq, filter, all, arith, Result, ok, err, Exception, ◌>>=◌, ◌>>◌,
}
use pyodide.Base.Dict.{Dict, lookup, put}
use pyodide.Buildall.Package.{Package, PackageMap, get_item, or_key_error}
use pyodide.Buildall.Graph.Validate.{
  is_static, is_none, invalid_dependency, check_run_dependencies, check_packages,
  find_missing_executables, note_missing, missing_executables, raise_missing, validate_package_map,
}

-- The call returns if the test holds, and raises if it does not.
abbrev Decides : Bool → Result (Unit {0}) → Type 0
Decides true r = r ≡ ok tt
Decides false r = (x : Exception) × (r ≡ err x)

Decides-and :
    (b c : Bool) (r s : Result (Unit {0})) → Decides b r → Decides c s → Decides (b && c) (r >> s)
Decides-and true c r s h k = rw h k
Decides-and false c r s (x, h) k = (x, rw h refl)

-- A dependency at run time is a package of the map that is not a static library.
abbrev is_dynamic : Option Package → Bool
is_dynamic none = false
is_dynamic (some pkg) = not (is_static pkg.package_type)

dependency_decided :
    (name dep : Text) (o : Option Package) (rest : Result (Unit {0})) (b : Bool)
    → Decides b rest
    → Decides (is_dynamic o && b) (
        or_key_error dep o >>= λ pkg.
        if is_static pkg.package_type
        then err (Exception.value_error (invalid_dependency name dep))
        else rest)
dependency_decided name dep none rest b h = (Exception.key_error dep, refl)
dependency_decided name dep (some pkg) rest b h = elim (Bool-cases (is_static pkg.package_type)) [
  | inl static ↦ rw static (Exception.value_error (invalid_dependency name dep), refl)
  | inr dynamic ↦ rw dynamic h
]

run_dependencies_decided :
    (name : Text) (deps : List Text) (m : PackageMap)
    → Decides (all (λ d. is_dynamic (lookup d m)) deps) (check_run_dependencies name deps m)
unfolding check_run_dependencies get_item all
run_dependencies_decided name [] m = refl
run_dependencies_decided name (dep ∷ deps) m =
    dependency_decided name dep (lookup dep m) (check_run_dependencies name deps m)
      (all (λ d. is_dynamic (lookup d m)) deps) (run_dependencies_decided name deps m)

packages_decided :
    (packages m : PackageMap)
    → Decides
        (all (λ entry. all (λ d. is_dynamic (lookup d m)) entry.1.run_dependencies) packages)
        (check_packages packages m)
unfolding check_packages all
packages_decided [] m = refl
packages_decided ((name, pkg) ∷ packages) m =
    Decides-and (all (λ d. is_dynamic (lookup d m)) pkg.run_dependencies)
      (all (λ entry. all (λ d. is_dynamic (lookup d m)) entry.1.run_dependencies) packages)
      (check_run_dependencies name pkg.run_dependencies m) (check_packages packages m)
      (run_dependencies_decided name pkg.run_dependencies m) (packages_decided packages m)

abbrev is_empty {ℓ} : {A : Type ℓ} → List A → Bool
is_empty [] = true
is_empty (a ∷ l) = false

is_empty-put :
    (exe : Text) (names : List Text) (d : Dict Text (List Text))
    → is_empty (put exe names d) ≡ false
unfolding put
is_empty-put exe names [] = refl
is_empty-put exe names ((k, v) ∷ d) = ground arith

module _ (which : Text → Option Text) where
  note_missing-is_empty :
      (name : Text) (exes : List Text) (d : Dict Text (List Text))
      → is_empty (note_missing which name exes d) ≡ (is_empty exes && is_empty d)
  unfolding note_missing
  note_missing-is_empty name [] d = refl
  note_missing-is_empty name (exe ∷ exes) d =
      rw (note_missing-is_empty name exes, is_empty-put exe) (ground arith)

  -- Every executable that a package needs is on the path.
  abbrev pub has_executables : Package → Bool
  has_executables pkg = all (λ exe. not (is_none (which exe))) pkg.executables_required

  is_empty-missing :
      (exes : List Text)
      → is_empty (find_missing_executables which exes) ≡ all (λ exe. not (is_none (which exe))) exes
  unfolding find_missing_executables filter all
  is_empty-missing [] = refl
  is_empty-missing (exe ∷ exes) = ground (arith, is_empty-missing exes)

  missing_executables-is_empty :
      (packages : PackageMap) (d : Dict Text (List Text))
      → is_empty (missing_executables which packages d)
        ≡ (all (λ entry. has_executables entry.1) packages && is_empty d)
  unfolding missing_executables all
  missing_executables-is_empty [] d = refl
  missing_executables-is_empty ((name, pkg) ∷ packages) d =
      rw
        (
          missing_executables-is_empty packages,
          note_missing-is_empty name (find_missing_executables which pkg.executables_required) d,
          is_empty-missing pkg.executables_required,
        )
        (ground arith)

  -- What the check accepts, said of the entries of the map.
  abbrev pub is_valid : PackageMap → Bool
  is_valid m =
      all (λ entry. all (λ d. is_dynamic (lookup d m)) entry.1.run_dependencies) m
      && all (λ entry. has_executables entry.1) m

  raised :
      (missing : Dict Text (List Text))
      → ((is_empty missing ≡ true) × (raise_missing which missing ≡ ok true))
        ⊎ ((is_empty missing ≡ false) × ((x : Exception) × (raise_missing which missing ≡ err x)))
  raised [] = inl (refl, refl)
  raised (entry ∷ missing) = inr (refl, (_, refl))

-- The map is accepted exactly if every run dependency is a package of the map that is no static library
-- and every executable that a package needs is found; else the call raises.
pub validate_package_map_lem :
    (which : Text → Option Text) (m : PackageMap)
    → ((is_valid which m ≡ true) × (validate_package_map which m ≡ ok true))
      ⊎ ((is_valid which m ≡ false) × ((x : Exception) × (validate_package_map which m ≡ err x)))
unfolding validate_package_map
validate_package_map_lem which m =
    by_decision (all (λ entry. all (λ d. is_dynamic (lookup d m)) entry.1.run_dependencies) m)
      (check_packages m m) (packages_decided m m) (raised which (missing_executables which m []))
  where
    no_missing :
        is_empty (missing_executables which m []) ≡ all (λ entry. has_executables which entry.1) m
    no_missing = ground (arith, missing_executables-is_empty which m [])

    by_decision :
        (b : Bool) (r : Result (Unit {0}))
        → Decides b r
        → ((is_empty (missing_executables which m []) ≡ true)
            × (raise_missing which (missing_executables which m []) ≡ ok true))
          ⊎ ((is_empty (missing_executables which m []) ≡ false)
              × ((x : Exception) × (raise_missing which (missing_executables which m []) ≡ err x)))
        → ((b && all (λ entry. has_executables which entry.1) m ≡ true)
            × ((r >> raise_missing which (missing_executables which m [])) ≡ ok true))
          ⊎ ((b && all (λ entry. has_executables which entry.1) m ≡ false)
              × ((x : Exception) × ((r >> raise_missing which (missing_executables which m []))
                    ≡ err x)))
    by_decision false r (x, h) _ = inr (refl, (x, rw h refl))
    by_decision true r h (inl (e, k)) = inl (cc (e, no_missing), rw h k)
    by_decision true r h (inr (e, (x, k))) = inr (cc (e, no_missing), (x, rw h k))
