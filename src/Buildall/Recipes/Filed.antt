-- ===== src/Buildall/Recipes/Filed.antt =====
-- `load_all_recipes`: each recipe is filed under its package's name.
use pyodide.Base.{
  Text, ◌≡◌, refl, subst, beq_sym, inl, inr, false, ◌||◌, List, [], ◌∷◌, text_eq, ◌==◌, arith,
  Result, ok, err, Bool-cases, eq_of_beq,
}
use pyodide.Base.Dict.{Dict, lookup, put, present, lookup-put}
use pyodide.Buildall.Package.{MetaConfig}
use pyodide.Buildall.Recipes.{load_all}

-- Each recipe stands once, under its package's name.
abbrev pub IsFiled : Dict Text MetaConfig → Type 0
IsFiled [] = Unit
IsFiled ((name, config) ∷ recipes) =
    (config.package_spec.name ≡ name) × (present name recipes ≡ false) × IsFiled recipes

present-put :
    (a name : Text) (config : MetaConfig) (recipes : Dict Text MetaConfig)
    → present a (put name config recipes) ≡ (a == name || present a recipes)
present-put a name config recipes = ground (arith, lookup-put a name config recipes)

put-IsFiled :
    (config : MetaConfig) (recipes : Dict Text MetaConfig)
    → IsFiled recipes
    → IsFiled (put config.package_spec.name config recipes)
unfolding put lookup
put-IsFiled config [] h = (refl, refl, tt)
put-IsFiled config ((name, c) ∷ recipes) (n, p, f) =
    elim (Bool-cases (config.package_spec.name == name)) [
      | inl same ↦ rw same (eq_of_beq config.package_spec.name name same, p, f)
      | inr other ↦ rw other (
        n,
        ground (
          arith,
          present-put name config.package_spec.name config recipes,
          beq_sym config.package_spec.name name,
        ),
        put-IsFiled config recipes f,
      )
    ]

pub load_all-IsFiled :
    (files : List (Text × Result MetaConfig)) (recipes r : Dict Text MetaConfig)
    → IsFiled recipes
    → load_all files recipes ≡ ok r
    → IsFiled r
unfolding load_all
load_all-IsFiled [] recipes r f h = let e : recipes ≡ r = cc in subst IsFiled e f
load_all-IsFiled ((path, ok config) ∷ files) recipes r f h =
    load_all-IsFiled files (put config.package_spec.name config recipes) r
      (put-IsFiled config recipes f) h
load_all-IsFiled ((path, err x) ∷ files) recipes r f h = cc
