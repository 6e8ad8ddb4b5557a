-- ===== src/Metadata.antt =====
-- pyodide-build/pyodide_build/io.py: the source and build sections of meta.yaml with their validators. Each
-- validator is run on a section that pydantic has read; it gives the messages of the errors that it raises,
-- of which pydantic makes one error.
pub mod Laws
mod Tests
use pyodide.Base.{
  Text, codes, text_beq, text_eq, Bool, true, false, not, ◌&&◌, ◌||◌, List, [], ◌∷◌, ◌++◌, Option,
  none, some, elem, if◌then◌else◌,
}
use pyodide.Base.Strings.Methods.{ends_with}
use pyodide.Buildall.Package.{
  BuildSpecType, python_package, static_library, shared_library, cpython_module,
}

pub record SourceSpec : Type 0 where
  pub url : Option Text
  pub extract_dir : Option Text
  pub path : Option Text
  pub sha256 : Option Text
  pub patches : List Text
  pub extras : List (Text × Text)

abbrev pub is_given : {A : Type 0} → Option A → Bool
is_given none = false
is_given (some a) = true

-- bool(xs)
abbrev pub truthy : {A : Type 0} → List A → Bool
truthy [] = false
truthy (x ∷ xs) = true

abbrev pub truthy_option : Option Text → Bool
truthy_option none = false
truthy_option (some text) = truthy text

abbrev pub error_if : Bool → Text → List Text
error_if true message = message ∷ []
error_if false message = []

unfoldable pub check_url_has_hash : SourceSpec → List Text
unfolding codes
check_url_has_hash s =
    error_if (is_given s.url && not (is_given s.sha256))
      (codes "If source is downloaded from url, it must have a 'source/sha256' hash.")

unfoldable pub check_in_tree_url : SourceSpec → List Text
unfolding codes
check_in_tree_url s =
    error_if (is_given s.path && is_given s.url)
      (codes "Source section should not have both a 'url' and a 'path' key")

abbrev pub is_wheel_url : Option Text → Bool
is_wheel_url none = false
is_wheel_url (some url) = ends_with url (codes ".whl")

unfoldable pub check_patches_extra : SourceSpec → List Text
unfolding codes ends_with
check_patches_extra s =
    let changed = truthy s.patches || truthy s.extras in
    if is_given s.path && changed
    then codes "If source is in tree, 'source/patches' and 'source/extras' keys are not allowed"
      ∷ []
    else error_if (is_wheel_url s.url && changed)
        (codes "If source is a wheel, 'source/patches' and 'source/extras' keys are not allowed")

-- The validators of the section, in order.
unfoldable pub source_errors : SourceSpec → List Text
unfolding check_url_has_hash check_in_tree_url check_patches_extra
source_errors s = check_url_has_hash s ++ (check_in_tree_url s ++ check_patches_extra s)

pub data BuildSpecExports : Type 0 where
  pyinit requested whole_archive : BuildSpecExports
  exported : List Text → BuildSpecExports

abbrev pub truthy_exports : BuildSpecExports → Bool
truthy_exports pyinit = true
truthy_exports requested = true
truthy_exports whole_archive = true
truthy_exports (exported names) = truthy names

pub record BuildSpec : Type 0 where
  pub exports : BuildSpecExports
  pub backend_flags : Text
  pub cflags : Text
  pub cxxflags : Text
  pub ldflags : Text
  pub package_type : BuildSpecType
  pub cross_script : Option Text
  pub script : Option Text
  pub post : Option Text
  pub unvendor_tests : Bool
  pub retain_test_patterns : List Text
  pub vendor_sharedlib : Bool
  pub cross_build_env : Bool
  pub cross_build_files : List Text

-- values.items(), with the truth value of each
unfoldable pub items : BuildSpec → List (Text × Bool)
unfolding codes
items b =
    (codes "exports", truthy_exports b.exports)
    ∷ (codes "backend_flags", truthy b.backend_flags)
    ∷ (codes "cflags", truthy b.cflags)
    ∷ (codes "cxxflags", truthy b.cxxflags)
    ∷ (codes "ldflags", truthy b.ldflags)
    ∷ (codes "package_type", true)
    ∷ (codes "cross_script", truthy_option b.cross_script)
    ∷ (codes "script", truthy_option b.script)
    ∷ (codes "post", truthy_option b.post)
    ∷ (codes "unvendor_tests", b.unvendor_tests)
    ∷ (codes "retain_test_patterns", truthy b.retain_test_patterns)
    ∷ (codes "vendor_sharedlib", b.vendor_sharedlib)
    ∷ (codes "cross_build_env", b.cross_build_env)
    ∷ (codes "cross_build_files", truthy b.cross_build_files)
    ∷ []

-- The first key with a value that is true and that is not allowed; `message` is its error.
unfoldable pub first_disallowed : List Text → (Text → Text) → List (Text × Bool) → List Text
unfolding elem text_beq
first_disallowed allowed message [] = []
first_disallowed allowed message ((key, val) ∷ values) =
    let rest = first_disallowed allowed message values in
    if val && not (elem key allowed) then message key ∷ [] else rest

abbrev pub type_name : BuildSpecType → Text
type_name python_package = codes "package"
type_name static_library = codes "static_library"
type_name shared_library = codes "shared_library"
type_name cpython_module = codes "cpython_module"

unfoldable pub library_keys : List Text
unfolding codes
library_keys = codes "package_type" ∷ codes "script" ∷ codes "exports" ∷ codes "unvendor_tests" ∷ []

abbrev pub library_errors : BuildSpecType → List (Text × Bool) → List Text
library_errors python_package values = []
library_errors package_type values =
    first_disallowed library_keys
      (λ key.
        codes "If building a "
        ++ (type_name package_type
            ++ (codes ", 'build/" ++ (key ++ codes "' key is not allowed."))))
      values

unfoldable pub check_config : BuildSpec → List Text
unfolding items first_disallowed library_keys codes
check_config b = library_errors b.package_type (items b)

unfoldable pub wheel_keys : List Text
unfolding codes
wheel_keys =
    codes "post"
    ∷ codes "unvendor-tests"
    ∷ codes "cross_build_env"
    ∷ codes "cross_build_files"
    ∷ codes "exports"
    ∷ codes "unvendor_tests"
    ∷ codes "package_type"
    ∷ []

-- The section is there; `host` are the requirements for building. `repr_list` is Python's.
-- The url as a formatted string has it.
abbrev pub url_text : Option Text → Text
url_text none = codes "None"
url_text (some url) = url

unfoldable pub check_wheel_host_requirements :
    (List Text → Text) → SourceSpec → List Text → BuildSpec → List Text
unfolding items first_disallowed wheel_keys codes ends_with
check_wheel_host_requirements repr_list source host build =
    let of_build =
      first_disallowed wheel_keys
        (λ key. codes "If source is a wheel, 'build/" ++ (key ++ codes "' key is not allowed"))
        (items build) in
    if is_wheel_url source.url
    then (if truthy host
        then (codes "When source -> url is a wheel ("
            ++ (url_text source.url
                ++ (codes ") the package cannot have host dependencies. Found " ++ repr_list host)))
          ∷ []
        else of_build)
    else []
