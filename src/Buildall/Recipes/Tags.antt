-- ===== src/Buildall/Recipes/Tags.antt =====
-- The loop of `load_recipes` that tags recipes: what is under a tag, and how many entries selecting adds.
use pyodide.Base.{
  Text, ◌≡◌, Bool, ◌&&◌, ◌||◌, List, [], ◌∷◌, ◌++◌, some, elem, any, text_eq, ◌==◌, eq_of_beq,
  arith,
}
use pyodide.Base.Dict.{Dict, lookup, put, present, lookup-put}
use pyodide.Buildall.Package.{MetaConfig}
use pyodide.Buildall.Recipes.{
  Tagged, tag_recipe, tag_recipes, or_empty, Selected, select_all, select_available,
}

-- A recipe of the list is that of the package; it has the tag, too; some recipe has the tag.
abbrev pub names_one : Text → List MetaConfig → Bool
names_one a configs = any (λ c. a == c.package_spec.name) configs

abbrev pub names_tagged : Text → Text → List MetaConfig → Bool
names_tagged tag a configs =
    any (λ c. a == c.package_spec.name && elem tag c.package_spec.tag) configs

abbrev pub has_tagged : Text → List MetaConfig → Bool
has_tagged tag configs = any (λ c. elem tag c.package_spec.tag) configs

names_one-append :
    (a : Text) (configs : List MetaConfig) (c : MetaConfig)
    → names_one a (configs ++ c ∷ []) ≡ (names_one a configs || a == c.package_spec.name)
unfolding any
names_one-append a [] c = ground arith
names_one-append a (config ∷ configs) c = ground (arith, names_one-append a configs c)

put-names :
    (t tag a : Text) (config : MetaConfig) (tagged : Tagged)
    → names_one a
        (or_empty (lookup t (put tag (or_empty (lookup tag tagged) ++ config ∷ []) tagged)))
      ≡ (names_one a (or_empty (lookup t tagged)) || (t == tag && a == config.package_spec.name))
put-names t tag a config tagged = ground (
  arith,
  lookup-put t tag (or_empty (lookup tag tagged) ++ config ∷ []) tagged,
  eq_of_beq t tag,
  names_one-append a (or_empty (lookup tag tagged)) config,
)

tag_recipe-names :
    (t a : Text) (config : MetaConfig) (tags : List Text) (tagged : Tagged)
    → names_one a (or_empty (lookup t (tag_recipe config tags tagged)))
      ≡ (names_one a (or_empty (lookup t tagged)) || (elem t tags && a == config.package_spec.name))
unfolding tag_recipe elem
tag_recipe-names t a config [] tagged = ground arith
tag_recipe-names t a config (tag ∷ tags) tagged =
    let tagged' = put tag (or_empty (lookup tag tagged) ++ config ∷ []) tagged in
    ground (arith, put-names t tag a config tagged, tag_recipe-names t a config tags tagged')

tag_recipe-present :
    (t : Text) (config : MetaConfig) (tags : List Text) (tagged : Tagged)
    → present t (tag_recipe config tags tagged) ≡ (present t tagged || elem t tags)
unfolding tag_recipe elem
tag_recipe-present t config [] tagged = ground arith
tag_recipe-present t config (tag ∷ tags) tagged =
    let configs = or_empty (lookup tag tagged) ++ config ∷ [] in
    ground (
      arith,
      lookup-put t tag configs tagged,
      tag_recipe-present t config tags (put tag configs tagged),
    )

-- Under a tag are the recipes that have it.
pub tag_recipes-names :
    (t a : Text) (configs : List MetaConfig) (tagged : Tagged)
    → names_one a (or_empty (lookup t (tag_recipes configs tagged)))
      ≡ (names_one a (or_empty (lookup t tagged)) || names_tagged t a configs)
unfolding tag_recipes any
tag_recipes-names t a [] tagged = ground arith
tag_recipes-names t a (config ∷ configs) tagged =
    let tagged' = tag_recipe config config.package_spec.tag tagged in
    ground (
      arith,
      tag_recipe-names t a config config.package_spec.tag tagged,
      tag_recipes-names t a configs tagged',
    )

pub tag_recipes-present :
    (t : Text) (configs : List MetaConfig) (tagged : Tagged)
    → present t (tag_recipes configs tagged) ≡ (present t tagged || has_tagged t configs)
unfolding tag_recipes any
tag_recipes-present t [] tagged = ground arith
tag_recipes-present t (config ∷ configs) tagged =
    let tagged' = tag_recipe config config.package_spec.tag tagged in
    ground (
      arith,
      tag_recipe-present t config config.package_spec.tag tagged,
      tag_recipes-present t configs tagged',
    )

pub present-select_all :
    (a : Text) (configs : List MetaConfig) (s : Selected)
    → present a (select_all configs s) ≡ (present a s || names_one a configs)
unfolding select_all any
present-select_all a [] s = ground arith
present-select_all a (config ∷ configs) s = ground (
  arith,
  lookup-put a config.package_spec.name (some config) s,
  present-select_all a configs (put config.package_spec.name (some config) s),
)

pub present-select_available :
    (a : Text) (l : Dict Text MetaConfig) (s : Selected)
    → present a (select_available l s) ≡ (present a s || present a l)
unfolding select_available lookup
present-select_available a [] s = ground arith
present-select_available a ((name, config) ∷ l) s = ground (
  arith,
  lookup-put a name (some config) s,
  present-select_available a l (put name (some config) s),
)
