-- ===== src/Buildall/Recipes/Chosen.antt =====
-- The loops of `load_recipes` that tag recipes and select a list of them.
use pyodide.Base.{
  Text, codes, ◌≡◌, refl, subst, All, ◌⊎◌, inl, inr, false, List, [], ◌∷◌, ◌++◌, Option, none, some,
  text_eq, ◌==◌, arith, Bool-cases, eq_of_beq, beq_refl, sym, subst₂,
}
use pyodide.Base.Dict.{Dict, lookup, put, present, values, lookup-put}
use pyodide.Buildall.Package.{MetaConfig}
use pyodide.Buildall.Recipes.{
  Tagged, tag_recipe, tag_recipes, or_empty, Selected, select_all, select_available,
}
use pyodide.Buildall.Recipes.Filed.{IsFiled}

-- The recipes of a list are the available ones.
abbrev pub AllFrom : Dict Text MetaConfig → List MetaConfig → Type 0
AllFrom available configs = All (λ c. lookup c.package_spec.name available ≡ some c) configs

AllFrom-append :
    (available : Dict Text MetaConfig) (configs others : List MetaConfig)
    → AllFrom available configs
    → AllFrom available others
    → AllFrom available (configs ++ others)
AllFrom-append available [] others h k = k
AllFrom-append available (config ∷ configs) others (e, h) k =
    (e, AllFrom-append available configs others h k)

AllFrom-weaken :
    (name : Text) (c : MetaConfig) (available : Dict Text MetaConfig) (configs : List MetaConfig)
    → present name available ≡ false
    → AllFrom available configs
    → AllFrom ((name, c) ∷ available) configs
unfolding lookup
AllFrom-weaken name c available [] p h = tt
AllFrom-weaken name c available (config ∷ configs) p (e, h) = (
  ground (arith, eq_of_beq config.package_spec.name name),
  AllFrom-weaken name c available configs p h,
)

pub AllFrom-values :
    (available : Dict Text MetaConfig) → IsFiled available → AllFrom available (values available)
unfolding values lookup
AllFrom-values [] f = tt
AllFrom-values ((name, c) ∷ available) (n, p, f) = (
  ground (arith, beq_refl name),
  AllFrom-weaken name c available (values available) p (AllFrom-values available f),
)

abbrev pub IsTagged : Dict Text MetaConfig → Tagged → Type 0
IsTagged available tagged =
    (tag : Text) (configs : List MetaConfig)
    → lookup tag tagged ≡ some configs
    → AllFrom available configs

-- A selected entry is an available recipe under its name, or the entry `no-numpy-dependents`.
abbrev pub IsSelected : Dict Text MetaConfig → Text → Option MetaConfig → Type 0
IsSelected available name o =
    ((name ≡ codes "no-numpy-dependents") × (o ≡ none))
    ⊎ ((c : MetaConfig) × (o ≡ some c) × (lookup name available ≡ some c))

abbrev pub IsSelection : Dict Text MetaConfig → Selected → Type 0
IsSelection available recipes =
    (a : Text) (o : Option MetaConfig) → lookup a recipes ≡ some o → IsSelected available a o

module _ (available : Dict Text MetaConfig) where
  pub or_empty-AllFrom :
      (o : Option (List MetaConfig))
      → ((configs : List MetaConfig) → o ≡ some configs → AllFrom available configs)
      → AllFrom available (or_empty o)
  or_empty-AllFrom none h = tt
  or_empty-AllFrom (some configs) h = h configs refl

  put-IsTagged :
      (tag : Text) (configs : List MetaConfig) (tagged : Tagged)
      → AllFrom available configs
      → IsTagged available tagged
      → IsTagged available (put tag configs tagged)
  put-IsTagged tag configs tagged h t other l e = elim (Bool-cases (other == tag)) [
    | inl same ↦
        let k : configs ≡ l = ground (arith, lookup-put other tag configs tagged) in
        subst (AllFrom available) k h
    | inr differ ↦ t other l (ground (arith, lookup-put other tag configs tagged))
  ]

  tag_recipe-IsTagged :
      (config : MetaConfig) (tags : List Text) (tagged : Tagged)
      → lookup config.package_spec.name available ≡ some config
      → IsTagged available tagged
      → IsTagged available (tag_recipe config tags tagged)
  unfolding tag_recipe
  tag_recipe-IsTagged config [] tagged h t = t
  tag_recipe-IsTagged config (tag ∷ tags) tagged h t =
      tag_recipe-IsTagged config tags (put tag (or_empty (lookup tag tagged) ++ config ∷ []) tagged)
        h
        (put-IsTagged tag (or_empty (lookup tag tagged) ++ config ∷ []) tagged
          (AllFrom-append available (or_empty (lookup tag tagged)) (config ∷ [])
            (or_empty-AllFrom (lookup tag tagged) (t tag)) (h, tt))
          t)

  pub tag_recipes-IsTagged :
      (configs : List MetaConfig) (tagged : Tagged)
      → AllFrom available configs
      → IsTagged available tagged
      → IsTagged available (tag_recipes configs tagged)
  unfolding tag_recipes
  tag_recipes-IsTagged [] tagged h t = t
  tag_recipes-IsTagged (config ∷ configs) tagged (e, h) t =
      tag_recipes-IsTagged configs (tag_recipe config config.package_spec.tag tagged) h
        (tag_recipe-IsTagged config config.package_spec.tag tagged e t)

  pub put-IsSelection :
      (name : Text) (o : Option MetaConfig) (recipes : Selected)
      → IsSelected available name o
      → IsSelection available recipes
      → IsSelection available (put name o recipes)
  put-IsSelection name o recipes s r a p e = elim (Bool-cases (a == name)) [
    | inl same ↦
        let k : o ≡ p = ground (arith, lookup-put a name o recipes) in
        subst₂ (IsSelected available) (sym (eq_of_beq a name same)) k s
    | inr differ ↦ r a p (ground (arith, lookup-put a name o recipes))
  ]

  pub select_all-IsSelection :
      (configs : List MetaConfig) (recipes : Selected)
      → AllFrom available configs
      → IsSelection available recipes
      → IsSelection available (select_all configs recipes)
  unfolding select_all
  select_all-IsSelection [] recipes h r = r
  select_all-IsSelection (config ∷ configs) recipes (e, h) r =
      select_all-IsSelection configs (put config.package_spec.name (some config) recipes) h
        (put-IsSelection config.package_spec.name (some config) recipes (inr (config, refl, e)) r)

  pub select_available-IsSelection :
      (l : Dict Text MetaConfig) (recipes : Selected)
      → IsFiled l
      → AllFrom available (values l)
      → IsSelection available recipes
      → IsSelection available (select_available l recipes)
  unfolding select_available values
  select_available-IsSelection [] recipes f h r = r
  select_available-IsSelection ((name, c) ∷ l) recipes (n, p, f) (e, h) r =
      select_available-IsSelection l (put name (some c) recipes) f h (
        put-IsSelection name (some c) recipes
          (inr (c, refl, subst (λ x. lookup x available ≡ some c) n e)) r)
