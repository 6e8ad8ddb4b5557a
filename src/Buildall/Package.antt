-- ===== src/Buildall/Package.antt =====
-- The recipe of a package (io.py, `MetaConfig`) and the package itself (`BasePackage`, `Package`). Of a
-- recipe the fields are modelled that buildall.py and recipe.py read.
use pyodide.Base.{
  ℕ, Text, codes, Bool, List, [], ◌∷◌, ◌++◌, Option, none, some, elem, any, length, ltb, ◌==◌,
  text_eq, Result, ok, err, Exception, assert, ◌>>◌,
}
use pyodide.Base.Set.{update}
use pyodide.Base.Dict.{Dict, lookup}

pub record PackageSpec : Type 0 where
  pub name : Text
  pub version : Text
  pub top_level : List Text
  pub tag : List Text
  pub disabled : Bool

-- The type `package` is `python_package` here, and the section `package` of a recipe `package_spec`.
pub data BuildSpecType : Type 0 where
  python_package static_library shared_library cpython_module : BuildSpecType

pub record RequirementsSpec : Type 0 where
  pub run : List Text
  pub host : List Text
  pub executable : List Text

pub record MetaConfig : Type 0 where
  pub package_spec : PackageSpec
  pub package_type : BuildSpecType
  pub requirements : RequirementsSpec

unfoldable pub is_rust_package : MetaConfig → Bool
is_rust_package meta =
    any (λ q. elem q meta.requirements.executable)
      (codes "rustc" ∷ codes "cargo" ∷ codes "rustup" ∷ [])

pub record Package : Type 0 where
  pub name : Text
  pub version : Text
  pub disabled : Bool
  pub meta : MetaConfig
  pub package_type : BuildSpecType
  pub run_dependencies : List Text
  pub host_dependencies : List Text
  pub executables_required : List Text
  pub dependencies : List Text
  pub unbuilt_host_dependencies : List Text
  pub host_dependents : List Text
  pub unvendored_tests : Option Text
  pub file_name : Option Text
  pub install_dir : Text
  pub queue_idx : Option ℕ

-- A package comes before another in the priority queue if it has more dependents.
unfoldable pub package_lt : Package → Package → Bool
package_lt p q = ltb (length q.host_dependents) (length p.host_dependents)

unfoldable pub package_from : MetaConfig → Package
package_from meta = record {
  name = meta.package_spec.name;
  version = meta.package_spec.version;
  disabled = meta.package_spec.disabled;
  meta = meta;
  package_type = meta.package_type;
  run_dependencies = meta.requirements.run;
  host_dependencies = meta.requirements.host;
  executables_required = meta.requirements.executable;
  dependencies = update (meta.requirements.run ++ meta.requirements.host) [];
  unbuilt_host_dependencies = update meta.requirements.host [];
  host_dependents = [];
  unvendored_tests = none;
  file_name = none;
  install_dir = codes "site";
  queue_idx = none;
}

-- Package(pkgdir, config); `pkgdir_name` is pkgdir.name.
unfoldable pub new_package : Text → MetaConfig → Result Package
unfolding package_from
new_package pkgdir_name meta = do
  assert (meta.package_spec.name == pkgdir_name)
  ok (package_from meta)

-- pkg_map: dict[str, BasePackage]
abbrev pub PackageMap : Type 0
PackageMap = Dict Text Package

abbrev pub or_key_error {ℓ} : {V : Type ℓ} → Text → Option V → Result V
or_key_error name none = err (Exception.key_error name)
or_key_error name (some v) = ok v

-- m[name], which raises KeyError
unfoldable pub get_item {ℓ} : {V : Type ℓ} → Text → Dict Text V → Result V
get_item name m = or_key_error name (lookup name m)
