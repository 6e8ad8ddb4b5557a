-- ===== src/Buildall/Recipes/Exact.antt =====
-- What each name selects, and which names are refused.
use pyodide.Base.{
  Text, codes, ◌≡◌, refl, Bool, true, false, ◌&&◌, ◌||◌, List, [], ◌∷◌, ◌++◌, Option, none, some,
  elem, any, text_eq, ◌==◌, beq_refl, eq_of_beq, subst, sym, inl, inr, Bool-cases, arith,
  if◌then◌else◌, Result, ok, err, Exception, ◌>>=◌,
}
use pyodide.Base.Strings.Methods.{starts_with, remove_prefix}
use pyodide.Base.Dict.{Dict, lookup, put, present, values, lookup-put}
use pyodide.Buildall.Package.{MetaConfig, get_item, or_key_error}
use pyodide.Buildall.Recipes.{
  Tagged, or_empty, Selected, select_all, select_special, select_tag, select_name, select_names,
}
use pyodide.Buildall.Recipes.Tags.{
  names_one, names_tagged, has_tagged, present-select_all, present-select_available,
}

module _ (available : Dict Text MetaConfig) where
  abbrev pub has_tag : Text → Text → Bool
  has_tag tag a = names_tagged tag a (values available)

  -- The name is `tag:` and a tag that a recipe has.
  abbrev pub is_tag : Text → Bool
  is_tag name =
      starts_with name (codes "tag:")
      && has_tagged (remove_prefix name (codes "tag:")) (values available)

  abbrev pub is_meta : Text → Bool
  is_meta name = name == codes "core" || name == codes "min-scipy-stack"

  -- The name is a recipe's, a tag, or one with a meaning of its own.
  abbrev pub is_known : Text → Bool
  is_known name =
      present name available
      || (is_tag name
          || (name == codes "*"
              || (name == codes "no-numpy-dependents"
                  || (is_meta name && has_tagged name (values available)))))

  -- A known name selects an entry: a recipe itself; a tag, or a name that stands for one, the recipes with
  -- the tag; `*` all recipes; and `no-numpy-dependents` the entry of this name.
  abbrev pub chooses : Text → Text → Bool
  chooses a name =
      if present name available
      then a == name
      else if is_tag name
      then has_tag (remove_prefix name (codes "tag:")) a
      else if name == codes "*"
      then present a available
      else if name == codes "no-numpy-dependents"
      then a == name
      else has_tag name a

  abbrev pub refusal : Text → Exception
  refusal name =
      if is_meta name
      then Exception.key_error name
      else Exception.value_error (codes "Unknown package name or tag: " ++ name)

  abbrev IsExact : Text → Selected → Result Selected → Type 0
  IsExact name s (ok r) =
      (is_known name ≡ true) × ((a : Text) → present a r ≡ (present a s || chooses a name))
  IsExact name s (err x) = (is_known name ≡ false) × (x ≡ refusal name)

  by_test :
      (name : Text) (b : Bool) (s : Selected) (r q : Result Selected)
      → (b ≡ true → IsExact name s r)
      → (b ≡ false → IsExact name s q)
      → IsExact name s (if b then r else q)
  by_test name true s r q h k = h refl
  by_test name false s r q h k = k refl

  module _ (tagged : Tagged)
      (names : (t a : Text) → names_one a (or_empty (lookup t tagged)) ≡ has_tag t a)
      (tags : (t : Text) → present t tagged ≡ has_tagged t (values available)) where
    meta-IsExact :
        (name : Text) (s : Selected) (o : Option (List MetaConfig))
        → lookup name tagged ≡ o
        → present name available ≡ false
        → is_tag name ≡ false
        → (name == codes "*") ≡ false
        → (name == codes "no-numpy-dependents") ≡ false
        → is_meta name ≡ true
        → IsExact name s (or_key_error name o >>= λ configs. ok (select_all configs s))
    meta-IsExact name s none e p t star numpy meta = (ground (arith, tags name), ground arith)
    meta-IsExact name s (some configs) e p t star numpy meta = (
      ground (arith, tags name),
      λ a. ground (arith, present-select_all a configs s, names name a),
    )

    special-IsExact :
        (name : Text) (s : Selected)
        → present name available ≡ false
        → is_tag name ≡ false
        → IsExact name s (select_special available tagged name s)
    unfolding select_special get_item
    special-IsExact name s p t =
        by_test name (name == codes "*") s _ _
          (λ star. (ground arith, λ a. ground (arith, present-select_available a available s)))
          (λ star.
            by_test name (name == codes "no-numpy-dependents") s _ _
              (λ numpy. (
                ground arith,
                λ a. ground (
                  arith,
                  lookup-put a (codes "no-numpy-dependents") none s,
                  eq_of_beq name (codes "no-numpy-dependents"),
                ),
              ))
              (λ numpy.
                by_test name (is_meta name) s _ _
                  (meta-IsExact name s (lookup name tagged) refl p t star numpy)
                  (λ other. (ground arith, ground arith))))

    tag-IsExact :
        (name : Text) (s : Selected) (o : Option (List MetaConfig))
        → lookup (remove_prefix name (codes "tag:")) tagged ≡ o
        → present name available ≡ false
        → starts_with name (codes "tag:") ≡ true
        → IsExact name s (elim o [
          | none ↦ select_special available tagged name s
          | some configs ↦ ok (select_all configs s)
        ])
    tag-IsExact name s none e p t =
        special-IsExact name s p (ground (arith, tags (remove_prefix name (codes "tag:"))))
    tag-IsExact name s (some configs) e p t =
        let tag = remove_prefix name (codes "tag:") in
        (
          ground (arith, tags tag),
          λ a. ground (arith, tags tag, present-select_all a configs s, names tag a),
        )

    name-IsExact :
        (name : Text) (s : Selected) (o : Option MetaConfig)
        → lookup name available ≡ o
        → IsExact name s (elim o [
          | none ↦ select_tag available tagged name s
          | some config ↦ ok (put name (some config) s)
        ])
    unfolding select_tag
    name-IsExact name s none e =
        by_test name (starts_with name (codes "tag:")) s _ _
          (tag-IsExact name s (lookup (remove_prefix name (codes "tag:")) tagged) refl
            (ground arith))
          (λ other. special-IsExact name s (ground arith) (ground arith))
    name-IsExact name s (some config) e =
        (ground arith, λ a. ground (arith, lookup-put a name (some config) s))

    -- All names are known, and the entries are those that they select; or the call raises for one that is not.
    abbrev pub AreExact : List Text → Selected → Result Selected → Type 0
    AreExact l s (ok r) =
        ((n : Text) → elem n l ≡ true → is_known n ≡ true)
        × ((a : Text) → present a r ≡ (present a s || any (chooses a) l))
    AreExact l s (err x) = (n : Text) × (elem n l ≡ true) × (is_known n ≡ false) × (x ≡ refusal n)

    AreExact-cons :
        (name : Text) (l : List Text) (s q : Selected) (r : Result Selected)
        → IsExact name s (ok q)
        → AreExact l q r
        → AreExact (name ∷ l) s r
    unfolding elem any
    AreExact-cons name l s q (ok r) (k, h) (all_known, rest) = (
      λ n m. elim (Bool-cases (n == name)) [
        | inl same ↦ subst (λ n. is_known n ≡ true) (sym (eq_of_beq n name same)) k
        | inr other ↦ all_known n (ground arith)
      ],
      λ a. ground (arith, h a, rest a),
    )
    AreExact-cons name l s q (err x) k (n, m, u, e) = (n, ground arith, u, e)

    names_step :
        (name : Text) (l : List Text) (s : Selected) (r : Result Selected)
        → IsExact name s r
        → ((q : Selected) → AreExact l q (select_names available tagged l q))
        → AreExact (name ∷ l) s (r >>= λ q. select_names available tagged l q)
    unfolding elem
    names_step name l s (ok q) h rest =
        AreExact-cons name l s q (select_names available tagged l q) h (rest q)
    names_step name l s (err x) (u, e) rest = (name, ground (arith, beq_refl name), u, e)

    pub select_names-AreExact :
        (l : List Text) (s : Selected) → AreExact l s (select_names available tagged l s)
    unfolding select_names select_name any elem
    select_names-AreExact [] s = (λ n m. cc, λ a. ground arith)
    select_names-AreExact (name ∷ l) s =
        names_step name l s (select_name available tagged name s)
          (name-IsExact name s (lookup name available) refl) (select_names-AreExact l)
