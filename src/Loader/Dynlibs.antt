-- ===== src/Loader/Dynlibs.antt =====
-- The dynamic libraries of an archive. What a regular expression finds, and the name and the suffixes that
-- `pathlib` reads off a path, are parameters.
pub mod Laws
use pyodide.Base.{
  ℕ, Text, codes, text_beq, text_eq, Bool, true, false, ◌||◌, not, List, [], ◌∷◌, ◌++◌, map, elem,
  filter, Option, none, some, if◌then◌else◌, Result, ok, err, Exception,
}

-- `is_sharedlib` is SHAREDLIB_REGEX.search, on a name; `is_platform_tag` is PLATFORM_TAG_REGEX.match, on
-- a suffix.
pub record Paths : Type 0 where
  pub name_of : Text → Text
  pub suffixes_of : Text → List Text
  pub is_sharedlib : Text → Bool
  pub is_platform_tag : Text → Bool

-- suffixes[suffixes.index(".so") - 1], if there is one: `before` is the suffix before the first of these
unfoldable pub tag_before : Text → List Text → Option Text
unfolding codes text_beq
tag_before before [] = none
tag_before before (suffix ∷ suffixes) =
    let rest = tag_before suffix suffixes in
    if text_beq suffix (codes ".so") then some before else rest

-- suffixes[-1]
unfoldable pub last_suffix : Text → List Text → Text
last_suffix before [] = before
last_suffix before (suffix ∷ suffixes) = last_suffix suffix suffixes

-- The index -1, if ".so" is the first suffix, is that of the last one.
unfoldable pub tag_of : List Text → Option Text
unfolding tag_before last_suffix
tag_of suffixes = tag_before (last_suffix [] suffixes) suffixes

abbrev pub is_compatible : (Text → Bool) → List Text → Option Text → Bool
is_compatible is_platform_tag extension_tags none = false
is_compatible is_platform_tag extension_tags (some tag) =
    elem tag extension_tags || not (is_platform_tag tag)

unfoldable pub should_load_dynlib : Paths → List Text → Text → Bool
unfolding tag_of elem
should_load_dynlib paths extension_tags path =
    if paths.is_sharedlib (paths.name_of path)
    then is_compatible paths.is_platform_tag extension_tags (tag_of (paths.suffixes_of path))
    else false

unfoldable pub zip_types : List Text
unfolding codes
zip_types = codes ".whl" ∷ codes ".zip" ∷ []

unfoldable pub tar_types : List Text
unfolding codes
tar_types =
    codes ".bz" ∷ codes ".bz2" ∷ codes ".tbz2" ∷ codes ".gz" ∷ codes ".tgz" ∷ codes ".tar" ∷ []

-- `zip_names` and `tar_names` are the names in the archive, read as one or the other; `resolve` is the path
-- in the target directory.
unfoldable pub get_dynlibs :
    Paths
    → List Text
    → (resolve : Text → Text) (zip_names tar_names : List Text) → Text
    → Result (List Text)
unfolding codes elem zip_types tar_types should_load_dynlib filter
get_dynlibs paths extension_tags resolve zip_names tar_names suffix =
    let dynlibs : List Text → List Text =
      λ names. map resolve (filter (should_load_dynlib paths extension_tags) names) in
    if elem suffix zip_types
    then ok (dynlibs zip_names)
    else (if elem suffix tar_types
        then ok (dynlibs tar_names)
        else err (Exception.value_error (codes "Unexpected suffix " ++ suffix)))
