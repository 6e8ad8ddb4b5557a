-- ===== src/Buildall/Recipes/Sound.antt =====
-- What names select is some of the recipes.
use pyodide.Base.{
  Text, codes, ◌≡◌, refl, inl, inr, Bool, true, false, ◌||◌, List, [], ◌∷◌, Option, none, some,
  text_eq, ◌==◌, if◌then◌else◌, Result, ok, err, ◌>>=◌,
}
use pyodide.Base.Strings.Methods.{starts_with, remove_prefix}
use pyodide.Base.Dict.{Dict, lookup, put}
use pyodide.Buildall.Package.{MetaConfig, get_item, or_key_error}
use pyodide.Buildall.Recipes.{
  Tagged, Selected, select_all, select_special, select_tag, select_name, select_names,
}
use pyodide.Buildall.Recipes.Filed.{IsFiled}
use pyodide.Buildall.Recipes.Chosen.{
  AllFrom, AllFrom-values, IsTagged, put-IsSelection, select_all-IsSelection,
  select_available-IsSelection, IsSelection,
}

module _ (available : Dict Text MetaConfig) (tagged : Tagged) (filed : IsFiled available)
    (tags : IsTagged available tagged) where
  -- If the call returns, it returns a selection.
  abbrev pub Yields : Result Selected → Type 0
  Yields (ok r) = IsSelection available r
  Yields (err x) = Unit

  tag-Yields :
      (name : Text) (s : Selected) (o : Option (List MetaConfig))
      → IsSelection available s
      → ((configs : List MetaConfig) → o ≡ some configs → AllFrom available configs)
      → Yields (or_key_error name o >>= λ configs. ok (select_all configs s))
  tag-Yields name s none i h = tt
  tag-Yields name s (some configs) i h =
      select_all-IsSelection available configs s (h configs refl) i

  by_test : (b : Bool) (r q : Result Selected) → Yields r → Yields q → Yields (if b then r else q)
  by_test true r q h k = h
  by_test false r q h k = k

  special-Yields :
      (name : Text) (s : Selected)
      → IsSelection available s
      → Yields (select_special available tagged name s)
  unfolding select_special get_item
  special-Yields name s i =
      by_test (name == codes "*") _ _
        (select_available-IsSelection available available s filed (AllFrom-values available filed)
          i)
        (by_test (name == codes "no-numpy-dependents") _ _
          (put-IsSelection available (codes "no-numpy-dependents") none s (inl (refl, refl)) i)
          (by_test (name == codes "core" || name == codes "min-scipy-stack") _ _
            (tag-Yields name s (lookup name tagged) i (tags name)) tt))

  or_special :
      (name : Text) (s : Selected) (o : Option (List MetaConfig))
      → IsSelection available s
      → ((configs : List MetaConfig) → o ≡ some configs → AllFrom available configs)
      → Yields (elim o [
        | none ↦ select_special available tagged name s
        | some configs ↦ ok (select_all configs s)
      ])
  or_special name s none i h = special-Yields name s i
  or_special name s (some configs) i h =
      select_all-IsSelection available configs s (h configs refl) i

  or_tag :
      (name : Text) (s : Selected) (o : Option MetaConfig)
      → IsSelection available s
      → lookup name available ≡ o
      → Yields (elim o [
        | none ↦ select_tag available tagged name s
        | some config ↦ ok (put name (some config) s)
      ])
  unfolding select_tag
  or_tag name s none i e =
      let tag = remove_prefix name (codes "tag:") in
      by_test (starts_with name (codes "tag:")) _ _
        (or_special name s (lookup tag tagged) i (tags tag)) (special-Yields name s i)
  or_tag name s (some config) i e =
      put-IsSelection available name (some config) s (inr (config, refl, e)) i

  names_step :
      (l : List Text) (r : Result Selected)
      → Yields r
      → ((q : Selected) → IsSelection available q → Yields (select_names available tagged l q))
      → Yields (r >>= λ q. select_names available tagged l q)
  names_step l (ok q) h rest = rest q h
  names_step l (err x) h rest = tt

  pub select_names-Yields :
      (l : List Text) (s : Selected)
      → IsSelection available s
      → Yields (select_names available tagged l s)
  unfolding select_names select_name
  select_names-Yields [] s i = i
  select_names-Yields (name ∷ l) s i =
      names_step l (select_name available tagged name s)
        (or_tag name s (lookup name available) i refl) (select_names-Yields l)
