-- ===== src/Buildall/Lockfile/Laws.antt =====
-- Which packages the lockfile has, and in which order.
use pyodide.Base.{
  Text, codes, text_eq, text_beq, ◌≡◌, refl, ap, subst, sym, ◌∙◌, Bool, true, false, not, ◌&&◌,
  ◌||◌, ◌==◌, [], ◌∷◌, ◌++◌, Option, none, some, elem, elem-nil, any, Bool-cases, inl, inr, arith,
  eq_of_beq, beq_refl, Result, ok, err, ◌>>=◌,
}
use pyodide.Base.Dict.{Dict, put, keys, elem-keys-put}
use pyodide.Base.Strings.Order.{elem-sort, Increasing, Distinct, sort-Increasing}
use pyodide.Buildall.Package.{
  BuildSpecType, python_package, static_library, shared_library, cpython_module,
}
use pyodide.Buildall.Lockfile.{
  BuiltPackage, PackageLockSpec, is_set, is_static_library, sort_items, key_of, tests_key,
  has_tests, is_locked, put_tests, lock_entry, tests_entry, lock_package, lock_packages,
  generate_packagedata,
}
use pyodide.Buildall.Lockfile.Keys.{keys-sort_items, keys-put-Distinct}

-- The packages of this type have an entry.
abbrev pub may_lock : BuildSpecType → Bool
may_lock static_library = false
may_lock python_package = true
may_lock shared_library = true
may_lock cpython_module = true

abbrev pub is_tests : Text → Option Text → Bool
is_tests file none = false
is_tests file (some tests) = file == tests

abbrev pub is_ok : Result Text → Bool
is_ok (ok sha256) = true
is_ok (err x) = false

module _ (canonicalize_name lower : Text → Text) (exists : Text → Bool)
    (sha256_of : Text → Result Text) where
  -- The package is not a static library, and has a file, which is there.
  abbrev pub is_available : BuiltPackage → Bool
  is_available pkg =
      not (pkg.file_name == []) && (may_lock pkg.package_type && exists pkg.file_name)

  -- The package is locked under the key, or its tests are.
  abbrev pub locks : Text → Text × BuiltPackage → Bool
  locks key (name, pkg) =
      is_available pkg
      && (key == lower (canonicalize_name name)
          || (has_tests pkg.unvendored_tests
              && key == lower (canonicalize_name name) ++ codes "-tests"))

  -- The file is that of a package that is locked, or the archive of its tests.
  abbrev pub needs : Text → Text × BuiltPackage → Bool
  needs file (name, pkg) =
      is_available pkg && (file == pkg.file_name || is_tests file pkg.unvendored_tests)

  available_at :
      (file : Text) (type : BuildSpecType)
      → (is_set file && (not (is_static_library type) && exists file))
        ≡ (not (file == []) && (may_lock type && exists file))
  unfolding text_beq
  available_at [] type = refl
  available_at (a ∷ file) python_package = refl
  available_at (a ∷ file) static_library = refl
  available_at (a ∷ file) shared_library = refl
  available_at (a ∷ file) cpython_module = refl

  -- What locking one package, and several, does to the packages that are locked, if it does not raise; and why
  -- it raises.
  abbrev Locks :
      (locked : Text → Bool) (needed : Text → Bool)
      → Dict Text PackageLockSpec
      → Result (Dict Text PackageLockSpec)
      → Type 0
  Locks locked needed packages (ok r) =
      Distinct (keys r)
      × ((key : Text) → elem key (keys r) ≡ (locked key || elem key (keys packages)))
      × ((file : Text) → (not (needed file) || is_ok (sha256_of file)) ≡ true)
  Locks locked needed packages (err x) =
      (file : Text) × (needed file ≡ true) × (sha256_of file ≡ err x)

  module _ (name : Text) (pkg : BuiltPackage) (packages : Dict Text PackageLockSpec)
      (d : Distinct (keys packages)) where
    abbrev LocksOne : Result (Dict Text PackageLockSpec) → Type 0
    LocksOne = Locks (λ key. locks key (name, pkg)) (λ file. needs file (name, pkg)) packages

    abbrev own : Text
    own = key_of canonicalize_name lower exists sha256_of name

    module _ (here : is_available pkg ≡ true) (sha256 : Text)
        (hash : sha256_of pkg.file_name ≡ ok sha256) where
      abbrev entry : PackageLockSpec
      entry = lock_entry canonicalize_name lower exists sha256_of name pkg sha256

      is_ok-file : (file : Text) → (not (file == pkg.file_name) || is_ok (sha256_of file)) ≡ true
      is_ok-file file = elim (Bool-cases (file == pkg.file_name)) [
        | inl same ↦
            ground (arith, ap (λ f. is_ok (sha256_of f)) (eq_of_beq file pkg.file_name same), hash)
        | inr other ↦ ground (arith, other)
      ]

      hashed-LocksOne :
          (tests : Text) (h : Result Text)
          → pkg.unvendored_tests ≡ some tests
          → sha256_of tests ≡ h
          → LocksOne (
              h >>= λ tests_sha256. ok (
                put
                  (tests_key canonicalize_name lower exists sha256_of name)
                  (tests_entry canonicalize_name lower exists sha256_of name pkg tests tests_sha256)
                  (put own entry packages)))
      hashed-LocksOne tests (ok sha) t e = (
        keys-put-Distinct (tests_key canonicalize_name lower exists sha256_of name)
            (tests_entry canonicalize_name lower exists sha256_of name pkg tests sha)
            (put own entry packages) (keys-put-Distinct own entry packages d),
        λ key. ground (
          arith,
          here,
          t,
          elem-keys-put key (tests_key canonicalize_name lower exists sha256_of name)
              (tests_entry canonicalize_name lower exists sha256_of name pkg tests sha)
              (put own entry packages),
          elem-keys-put key own entry packages,
        ),
        λ file. elim (Bool-cases (file == tests)) [
          | inl same ↦ ground (arith, ap (λ f. is_ok (sha256_of f)) (eq_of_beq file tests same), e)
          | inr other ↦ ground (arith, here, t, other, is_ok-file file)
        ],
      )
      hashed-LocksOne tests (err x) t e = (tests, ground (arith, here, t, beq_refl tests), e)

      tests-LocksOne :
          (tests : Option Text)
          → pkg.unvendored_tests ≡ tests
          → LocksOne (
              put_tests canonicalize_name lower exists sha256_of name pkg tests
                (put own entry packages))
      tests-LocksOne none t = (
        keys-put-Distinct own entry packages d,
        λ key. ground (arith, here, t, elem-keys-put key own entry packages),
        λ file. ground (arith, here, t, is_ok-file file),
      )
      tests-LocksOne (some tests) t = hashed-LocksOne tests (sha256_of tests) t refl

    file-LocksOne :
        is_available pkg ≡ true
        → (h : Result Text) → sha256_of pkg.file_name ≡ h
        → LocksOne (
            h >>= λ sha256.
            put_tests canonicalize_name lower exists sha256_of name pkg pkg.unvendored_tests (
              put own
                (lock_entry canonicalize_name lower exists sha256_of name pkg sha256)
                packages))
    file-LocksOne here (ok sha256) e = tests-LocksOne here sha256 e pkg.unvendored_tests refl
    file-LocksOne here (err x) e = (pkg.file_name, ground (arith, here, beq_refl pkg.file_name), e)

    lock_package-LocksOne :
        LocksOne (lock_package canonicalize_name lower exists sha256_of name pkg packages)
    unfolding lock_package
    lock_package-LocksOne =
        let same = available_at pkg.file_name pkg.package_type in
        elim (Bool-cases (is_locked canonicalize_name lower exists sha256_of pkg)) [
          | inl locked ↦
              rw locked (file-LocksOne (sym same ∙ locked) (sha256_of pkg.file_name) refl)
          | inr other ↦
              rw other (d, λ key. ground (arith, same, other), λ file. ground (arith, same, other))
        ]

  -- The packages of a map, one after the other.
  abbrev LocksAll :
      Dict Text BuiltPackage
      → Dict Text PackageLockSpec
      → Result (Dict Text PackageLockSpec)
      → Type 0
  LocksAll pkg_map = Locks (λ key. any (locks key) pkg_map) (λ file. any (needs file) pkg_map)

  LocksAll-cons :
      (name : Text) (pkg : BuiltPackage) (pkg_map : Dict Text BuiltPackage)
      (packages q : Dict Text PackageLockSpec) (r : Result (Dict Text PackageLockSpec))
      → Locks (λ key. locks key (name, pkg)) (λ file. needs file (name, pkg)) packages (ok q)
      → LocksAll pkg_map q r
      → LocksAll ((name, pkg) ∷ pkg_map) packages r
  unfolding any
  LocksAll-cons name pkg pkg_map packages q (ok r) (d, h, f) (e, k, g) =
      (e, λ key. ground (arith, h key, k key), λ file. ground (arith, f file, g file))
  LocksAll-cons name pkg pkg_map packages q (err x) h (file, m, e) = (file, ground arith, e)

  lock_packages_step :
      (name : Text) (pkg : BuiltPackage) (pkg_map : Dict Text BuiltPackage)
      (packages : Dict Text PackageLockSpec) (r : Result (Dict Text PackageLockSpec))
      → Locks (λ key. locks key (name, pkg)) (λ file. needs file (name, pkg)) packages r
      → ((q : Dict Text PackageLockSpec)
          → Distinct (keys q)
          → LocksAll pkg_map q (lock_packages canonicalize_name lower exists sha256_of pkg_map q))
      → LocksAll
          ((name, pkg) ∷ pkg_map)
          packages
          (r >>= λ q. lock_packages canonicalize_name lower exists sha256_of pkg_map q)
  unfolding any
  lock_packages_step name pkg pkg_map packages (ok q) h rest =
      LocksAll-cons name pkg pkg_map packages q
        (lock_packages canonicalize_name lower exists sha256_of pkg_map q) h (rest q h.0)
  lock_packages_step name pkg pkg_map packages (err x) (file, m, e) rest = (file, ground arith, e)

  lock_packages-LocksAll :
      (pkg_map : Dict Text BuiltPackage) (packages : Dict Text PackageLockSpec)
      → Distinct (keys packages)
      → LocksAll pkg_map packages
          (lock_packages canonicalize_name lower exists sha256_of pkg_map packages)
  unfolding lock_packages any
  lock_packages-LocksAll [] packages d = (d, λ key. refl, λ file. refl)
  lock_packages-LocksAll ((name, pkg) ∷ pkg_map) packages d =
      lock_packages_step name pkg pkg_map packages
        (lock_package canonicalize_name lower exists sha256_of name pkg packages)
        (lock_package-LocksOne name pkg packages d) (lock_packages-LocksAll pkg_map)

  -- The lockfile of the packages, or why there is none.
  abbrev pub IsLockfile : Dict Text BuiltPackage → Result (Dict Text PackageLockSpec) → Type 0
  IsLockfile pkg_map (ok r) =
      Increasing (keys r)
      × ((key : Text) → elem key (keys r) ≡ any (locks key) pkg_map)
      × ((file : Text) → (not (any (needs file) pkg_map) || is_ok (sha256_of file)) ≡ true)
  IsLockfile pkg_map (err x) =
      (file : Text) × (any (needs file) pkg_map ≡ true) × (sha256_of file ≡ err x)

  sorted-IsLockfile :
      (pkg_map : Dict Text BuiltPackage) (r : Result (Dict Text PackageLockSpec))
      → LocksAll pkg_map [] r
      → IsLockfile pkg_map (r >>= λ packages. ok (sort_items packages))
  unfolding keys
  sorted-IsLockfile pkg_map (ok packages) (distinct, locked, hashed) = (
    subst Increasing (sym (keys-sort_items packages)) (sort-Increasing (keys packages) distinct),
    λ key.
        ap (elem key) (keys-sort_items packages)
        ∙ elem-sort key (keys packages)
        ∙ ground (arith, locked key, elem-nil key),
    hashed,
  )
  sorted-IsLockfile pkg_map (err x) h = h

  -- The lockfile has its packages in strictly increasing order of their keys. A key is there exactly if it is
  -- that of a package, or that of its tests, and the package is not a static library and its file is there.
  -- Then the hashes of these files and archives of tests could be taken; otherwise the call raises what taking
  -- one of them raises.
  pub generate_packagedata_lem :
      (pkg_map : Dict Text BuiltPackage)
      → IsLockfile pkg_map (generate_packagedata canonicalize_name lower exists sha256_of pkg_map)
  unfolding generate_packagedata keys
  generate_packagedata_lem pkg_map =
      sorted-IsLockfile pkg_map (lock_packages canonicalize_name lower exists sha256_of pkg_map [])
        (lock_packages-LocksAll pkg_map [] tt)
