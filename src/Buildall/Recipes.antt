-- ===== src/Buildall/Recipes.antt =====
-- pyodide-build/pyodide_build/recipe.py: the recipes that names and tags select. The recipe files are
-- read outside the model: each is what `MetaConfig.from_yaml` makes of it.
pub mod Filed
pub mod Chosen
pub mod Sound
pub mod Tags
pub mod Exact
pub mod Laws
use pyodide.Base.{
  ℕ, Text, codes, Bool, true, false, List, [], ◌∷◌, ◌++◌, Option, none, some, elem, ◌||◌, ◌==◌,
  text_eq, if◌then◌else◌, Result, ok, err, Exception, ◌>>=◌, ◌>>◌,
}
use pyodide.Base.Strings.Methods.{starts_with, remove_prefix}
use pyodide.Base.Dict.{Dict, lookup, put, values}
use pyodide.Buildall.Package.{MetaConfig, get_item}

-- The loop of `load_all_recipes`; each file comes with its path.
unfoldable pub load_all :
    List (Text × Result MetaConfig) → Dict Text MetaConfig → Result (Dict Text MetaConfig)
load_all [] recipes = ok recipes
load_all ((path, ok config) ∷ files) recipes =
    load_all files (put config.package_spec.name config recipes)
load_all ((path, err x) ∷ files) recipes =
    err (Exception.value_error (codes "Could not parse " ++ (path ++ codes ".")))

unfoldable pub load_all_recipes : List (Text × Result MetaConfig) → Result (Dict Text MetaConfig)
unfolding load_all
load_all_recipes files = load_all files []

abbrev pub Tagged : Type 0
Tagged = Dict Text (List MetaConfig)

abbrev pub or_empty {ℓ} : {A : Type ℓ} → Option (List A) → List A
or_empty none = []
or_empty (some l) = l

-- tagged_recipes.setdefault(tag, []).append(recipe)
unfoldable pub tag_recipe : MetaConfig → List Text → Tagged → Tagged
tag_recipe config [] tagged = tagged
tag_recipe config (tag ∷ tags) tagged =
    tag_recipe config tags (put tag (or_empty (lookup tag tagged) ++ config ∷ []) tagged)

unfoldable pub tag_recipes : List MetaConfig → Tagged → Tagged
unfolding tag_recipe
tag_recipes [] tagged = tagged
tag_recipes (config ∷ configs) tagged =
    tag_recipes configs (tag_recipe config config.package_spec.tag tagged)

-- The selected recipes; the entry `no-numpy-dependents` has no recipe.
abbrev pub Selected : Type 0
Selected = Dict Text (Option MetaConfig)

-- for recipe in configs: recipes[recipe.package.name] = recipe
unfoldable pub select_all : List MetaConfig → Selected → Selected
select_all [] recipes = recipes
select_all (config ∷ configs) recipes =
    select_all configs (put config.package_spec.name (some config) recipes)

-- recipes.update({name: package for name, package in available_recipes.items()})
unfoldable pub select_available : Dict Text MetaConfig → Selected → Selected
select_available [] recipes = recipes
select_available ((name, config) ∷ rest) recipes =
    select_available rest (put name (some config) recipes)

module _ (available : Dict Text MetaConfig) (tagged : Tagged) where
  -- The branches on a name that is not a recipe's.
  unfoldable pub select_special : Text → Selected → Result Selected
  unfolding select_available
  select_special name recipes =
      if name == codes "*"
      then ok (select_available available recipes)
      else if name == codes "no-numpy-dependents"
      then ok (put (codes "no-numpy-dependents") none recipes)
      else if name == codes "core" || name == codes "min-scipy-stack"
      then (do configs ← get_item name tagged; ok (select_all configs recipes))
      else err (Exception.value_error (codes "Unknown package name or tag: " ++ name))

  unfoldable pub select_tag : Text → Selected → Result Selected
  unfolding select_special select_all
  select_tag name recipes =
      if starts_with name (codes "tag:")
      then elim (lookup (remove_prefix name (codes "tag:")) tagged) [
        | none ↦ select_special name recipes
        | some configs ↦ ok (select_all configs recipes)
      ]
      else select_special name recipes

  unfoldable pub select_name : Text → Selected → Result Selected
  unfolding select_tag
  select_name name recipes = elim (lookup name available) [
    | none ↦ select_tag name recipes
    | some config ↦ ok (put name (some config) recipes)
  ]

  unfoldable pub select_names : List Text → Selected → Result Selected
  unfolding select_name
  select_names [] recipes = ok recipes
  select_names (name ∷ names) recipes = do
    recipes' ← select_name name recipes
    select_names names recipes'

unfoldable pub load_recipes : Dict Text MetaConfig → List Text → Bool → Result Selected
unfolding select_names tag_recipes
load_recipes available names_or_tags load_always_tag =
    let tagged = tag_recipes (values available) [] in
    do
      recipes ← select_names available tagged names_or_tags []
      ok (
          if load_always_tag
          then select_all (or_empty (lookup (codes "always") tagged)) recipes
          else recipes)
