-- ===== src/Buildall/Recipes/Laws.antt =====
-- `load_recipes`: which recipes the names select, and when it raises.
use pyodide.Base.{
  Text, codes, ◌≡◌, refl, ◌∙◌, elem, any, Bool, true, false, ◌&&◌, ◌||◌, List, [], text_eq,
  if◌then◌else◌, arith, Result, ok, err, ◌>>=◌,
}
use pyodide.Base.Dict.{Dict, lookup, present, values}
use pyodide.Buildall.Package.{MetaConfig}
use pyodide.Buildall.Recipes.{
  load_all_recipes, Tagged, tag_recipes, or_empty, Selected, select_all, select_names, load_recipes,
}
use pyodide.Buildall.Recipes.Filed.{IsFiled, load_all-IsFiled}
use pyodide.Buildall.Recipes.Chosen.{
  AllFrom-values, IsTagged, tag_recipes-IsTagged, select_all-IsSelection, or_empty-AllFrom,
  IsSelection,
}
use pyodide.Buildall.Recipes.Sound.{Yields, select_names-Yields}
use pyodide.Buildall.Recipes.Tags.{
  names_one, has_tagged, tag_recipes-names, tag_recipes-present, present-select_all,
}
use pyodide.Buildall.Recipes.Exact.{
  has_tag, is_known, chooses, refusal, AreExact, select_names-AreExact,
}

-- What `load_recipes` does with names.
abbrev pub Loads : Dict Text MetaConfig → List Text → Bool → Result Selected → Type 0
Loads available l always (ok r) =
    IsSelection available r
    × ((n : Text) → elem n l ≡ true → is_known available n ≡ true)
    × ((a : Text)
        → present a r
          ≡ (any (chooses available a) l || (always && has_tag available (codes "always") a)))
Loads available l always (err x) =
    (n : Text) × (elem n l ≡ true) × (is_known available n ≡ false) × (x ≡ refusal available n)

module _ (available : Dict Text MetaConfig) (filed : IsFiled available) where
  abbrev tagged : Tagged
  tagged = tag_recipes (values available) []

  tags : IsTagged available tagged
  tags =
      tag_recipes-IsTagged available (values available) [] (AllFrom-values available filed)
        (λ tag configs e. unfold lookup in cc)

  names_tag : (t a : Text) → names_one a (or_empty (lookup t tagged)) ≡ has_tag available t a
  names_tag t a = tag_recipes-names t a (values available) [] ∙ (unfold lookup any in refl)

  present_tag : (t : Text) → present t tagged ≡ has_tagged t (values available)
  present_tag t = tag_recipes-present t (values available) [] ∙ (unfold lookup in refl)

  with_always :
      (l : List Text) (always : Bool) (r : Result Selected)
      → Yields available tagged filed tags r
      → AreExact available tagged names_tag present_tag l [] r
      → Loads available l always (
          r >>= λ recipes. ok (
            if always
            then select_all (or_empty (lookup (codes "always") tagged)) recipes
            else recipes))
  unfolding lookup
  with_always l true (ok r) i (known, h) =
      let configs = or_empty (lookup (codes "always") tagged) in
      (
        select_all-IsSelection available configs r
            (or_empty-AllFrom available (lookup (codes "always") tagged) (tags (codes "always"))) i,
        known,
        λ a. ground (arith, h a, present-select_all a configs r, names_tag (codes "always") a),
      )
  with_always l false (ok r) i (known, h) = (i, known, λ a. ground (arith, h a))
  with_always l always (err x) i n = n

-- The call raises if and only if a given name is not known: it is no recipe's, no tag of a recipe, and has no
-- meaning of its own; it raises KeyError for a meta package that is no tag, and else ValueError. Otherwise
-- its entries are exactly those that the names select, and those of the recipes with the tag `always` if these
-- are to be loaded; each is one of the recipes that `load_all_recipes` returned under its package's name, or
-- the entry `no-numpy-dependents`.
pub load_recipes_lem :
    (files : List (Text × Result MetaConfig)) (available : Dict Text MetaConfig) (names : List Text)
    (always : Bool)
    → load_all_recipes files ≡ ok available
    → Loads available names always (load_recipes available names always)
unfolding load_recipes load_all_recipes
load_recipes_lem files available names always h =
    let filed = load_all-IsFiled files [] available tt h in
    with_always available filed names always
      (select_names available (tagged available filed) names [])
      (select_names-Yields available (tagged available filed) filed (tags available filed) names []
        (λ a o e. unfold lookup in cc))
      (select_names-AreExact available (tagged available filed) (names_tag available filed)
        (present_tag available filed) names [])
