-- ===== src/Buildall/Tests/Locks.antt =====
-- The lockfile of two packages.
use pyodide.Base.{
  Text, codes, ◌≡◌, refl, true, [], ◌∷◌, none, some, text_eq, text_beq, ◌==◌, Result, ok, err,
  Exception, if◌then◌else◌,
}
use pyodide.Base.Dict.{Dict}
use pyodide.Buildall.Package.{python_package, cpython_module}
use pyodide.Buildall.Lockfile.{BuiltPackage, generate_packagedata}
use pyodide.Buildall.Lockfile.Laws.{IsLockfile, generate_packagedata_lem}

abbrev built : Dict Text BuiltPackage
built =
    (
      codes "scipy",
      record {
        version = codes "1";
        file_name = codes "scipy.whl";
        install_dir = codes "site";
        package_type = python_package;
        run_dependencies = codes "numpy" ∷ [];
        top_level = [];
        unvendored_tests = some (codes "scipy-tests.tar");
      },
    )
    ∷ (
      codes "lzma",
      record {
        version = codes "1";
        file_name = codes "lzma.zip";
        install_dir = codes "site";
        package_type = cpython_module;
        run_dependencies = [];
        top_level = [];
        unvendored_tests = none;
      },
    )
    ∷ []

generate_packagedata_lem_example :
    IsLockfile
      (λ name. name)
      (λ name. name)
      (λ path. true)
      (λ path. ok [])
      built
      (generate_packagedata (λ name. name) (λ name. name) (λ path. true) (λ path. ok []) built)
generate_packagedata_lem_example =
    generate_packagedata_lem (λ name. name) (λ name. name) (λ path. true) (λ path. ok []) built

-- The archive of the tests is missing.
abbrev without_tests : Text → Result Text
without_tests path =
    if path == codes "scipy-tests.tar" then err (Exception.os_error path) else ok []

missing_run :
    generate_packagedata (λ name. name) (λ name. name) (λ path. true) without_tests built
    ≡ err (Exception.os_error (codes "scipy-tests.tar"))
unfolding generate_packagedata codes text_beq
missing_run = refl
