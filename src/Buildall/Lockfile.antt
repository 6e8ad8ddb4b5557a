-- ===== src/Buildall/Lockfile.antt =====
-- `generate_packagedata`, the packages of the lockfile. The map has each package under its name; of a package
-- it has what the lockfile takes. Whether a file is there and its hash are read from the output directory: a hash
-- of a file that cannot be read raises.
pub mod Keys
pub mod Laws
use pyodide.Base.{
  Text, codes, text_beq, text_eq, Bool, true, false, not, ◌&&◌, ◌||◌, List, [], ◌∷◌, ◌++◌, Option,
  none, some, map, if◌then◌else◌, Result, ok, ◌>>=◌,
}
use pyodide.Base.Dict.{Dict, put, keys}
use pyodide.Base.Strings.Order.{text_lt}
use pyodide.Buildall.Package.{
  BuildSpecType, python_package, static_library, shared_library, cpython_module,
}

-- `file_name` is empty if it is not set.
pub record BuiltPackage : Type 0 where
  pub version : Text
  pub file_name : Text
  pub install_dir : Text
  pub package_type : BuildSpecType
  pub run_dependencies : List Text
  pub top_level : List Text
  -- The name of the archive of its tests.
  pub unvendored_tests : Option Text

-- What the code sets of a PackageLockSpec.
pub record PackageLockSpec : Type 0 where
  pub name : Text
  pub version : Text
  pub file_name : Text
  pub install_dir : Text
  pub package_type : Option BuildSpecType
  pub sha256 : Text
  pub shared_library : Bool
  pub depends : List Text
  pub imports : Option (List Text)
  pub unvendored_tests : Bool

abbrev pub is_shared : BuildSpecType → Bool
is_shared python_package = false
is_shared static_library = false
is_shared shared_library = true
is_shared cpython_module = true

abbrev pub is_static_library : BuildSpecType → Bool
is_static_library python_package = false
is_static_library static_library = true
is_static_library shared_library = false
is_static_library cpython_module = false

abbrev pub dir_of : BuildSpecType → Text → Text
dir_of python_package install_dir = install_dir
dir_of static_library install_dir = install_dir
dir_of shared_library install_dir = codes "dynlib"
dir_of cpython_module install_dir = codes "stdlib"

-- top_level, or the name if it is empty
abbrev pub names_or : Text → List Text → List Text
names_or name [] = name ∷ []
names_or name (import_name ∷ names) = import_name ∷ names

abbrev pub imports_of : BuildSpecType → Text → List Text → Option (List Text)
imports_of python_package name top_level = some (names_or name top_level)
imports_of cpython_module name top_level = some (names_or name top_level)
imports_of static_library name top_level = none
imports_of shared_library name top_level = none

abbrev pub is_set : Text → Bool
is_set [] = false
is_set (a ∷ text) = true

abbrev pub has_tests : Option Text → Bool
has_tests none = false
has_tests (some file_name) = true

unfoldable pub insert_item :
    Text → PackageLockSpec → Dict Text PackageLockSpec → Dict Text PackageLockSpec
unfolding text_lt
insert_item k v [] = (k, v) ∷ []
insert_item k v ((j, w) ∷ m) =
    let rest = insert_item k v m in if text_lt j k then (j, w) ∷ rest else (k, v) ∷ (j, w) ∷ m

-- dict(sorted(packages.items()))
unfoldable pub sort_items : Dict Text PackageLockSpec → Dict Text PackageLockSpec
unfolding insert_item
sort_items [] = []
sort_items ((k, v) ∷ m) = insert_item k v (sort_items m)

module _ (canonicalize_name lower : Text → Text) (exists : Text → Bool)
    (sha256_of : Text → Result Text) where
  abbrev pub key_of : Text → Text
  key_of name = lower (canonicalize_name name)

  abbrev pub tests_key : Text → Text
  tests_key name = key_of name ++ codes "-tests"

  unfoldable pub lock_entry : Text → BuiltPackage → Text → PackageLockSpec
  unfolding codes
  lock_entry name pkg sha256 = record {
    name = name;
    version = pkg.version;
    file_name = pkg.file_name;
    install_dir = dir_of pkg.package_type pkg.install_dir;
    package_type = some pkg.package_type;
    sha256 = sha256;
    shared_library = is_shared pkg.package_type;
    depends = map lower pkg.run_dependencies;
    imports = imports_of pkg.package_type name pkg.top_level;
    unvendored_tests = has_tests pkg.unvendored_tests;
  }

  unfoldable pub tests_entry : Text → BuiltPackage → Text → Text → PackageLockSpec
  unfolding codes
  tests_entry name pkg file_name sha256 = record {
    name = name ++ codes "-tests";
    version = pkg.version;
    file_name = file_name;
    install_dir = pkg.install_dir;
    package_type = none;
    sha256 = sha256;
    shared_library = false;
    depends = lower name ∷ [];
    imports = none;
    unvendored_tests = false;
  }

  abbrev pub is_locked : BuiltPackage → Bool
  is_locked pkg =
      is_set pkg.file_name && (not (is_static_library pkg.package_type) && exists pkg.file_name)

  abbrev pub put_tests :
      Text
      → BuiltPackage
      → Option Text
      → Dict Text PackageLockSpec
      → Result (Dict Text PackageLockSpec)
  put_tests name pkg none packages = ok packages
  put_tests name pkg (some file_name) packages = sha256_of file_name >>= λ sha256.
      ok (put (tests_key name) (tests_entry name pkg file_name sha256) packages)

  unfoldable pub lock_package :
      Text → BuiltPackage → Dict Text PackageLockSpec → Result (Dict Text PackageLockSpec)
  unfolding put lock_entry tests_entry codes
  lock_package name pkg packages =
      if is_locked pkg
      then (sha256_of pkg.file_name >>= λ sha256.
          put_tests name pkg pkg.unvendored_tests
            (put (key_of name) (lock_entry name pkg sha256) packages))
      else ok packages

  unfoldable pub lock_packages :
      Dict Text BuiltPackage → Dict Text PackageLockSpec → Result (Dict Text PackageLockSpec)
  unfolding lock_package
  lock_packages [] packages = ok packages
  lock_packages ((name, pkg) ∷ pkg_map) packages =
      lock_package name pkg packages >>= λ packages'. lock_packages pkg_map packages'

  unfoldable pub generate_packagedata : Dict Text BuiltPackage → Result (Dict Text PackageLockSpec)
  unfolding lock_packages sort_items
  generate_packagedata pkg_map = lock_packages pkg_map [] >>= λ packages. ok (sort_items packages)
