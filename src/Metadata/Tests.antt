-- ===== src/Metadata/Tests.antt =====
-- The theorems on meta.yaml at concrete inputs.
use pyodide.Base.{codes, ◌≡◌, true, false, not, ◌&&◌, ◌||◌, [], ◌∷◌, none, some}
use pyodide.Buildall.Package.{static_library}
use pyodide.Metadata.{
  SourceSpec, is_given, truthy, is_wheel_url, source_errors, BuildSpec, requested, check_config,
  check_wheel_host_requirements,
}
use pyodide.Metadata.Laws.{
  source_errors_lem, is_library, has_package_fields, check_config_lem, has_built_fields,
  check_wheel_host_requirements_lem,
}

abbrev wheel_source : SourceSpec
wheel_source = record {
  url = some (codes "https://x.org/a-1-py3-none-any.whl");
  extract_dir = none;
  path = none;
  sha256 = some (codes "00");
  patches = codes "fix.patch" ∷ [];
  extras = [];
}

abbrev library : BuildSpec
library = record {
  exports = requested;
  backend_flags = [];
  cflags = codes "-O2";
  cxxflags = [];
  ldflags = [];
  package_type = static_library;
  cross_script = none;
  script = some (codes "make");
  post = none;
  unvendor_tests = true;
  retain_test_patterns = [];
  vendor_sharedlib = false;
  cross_build_env = false;
  cross_build_files = [];
}

source_errors_lem_example :
    truthy (source_errors wheel_source)
    ≡ not (
        (not (is_given wheel_source.url)
          || (is_given wheel_source.sha256 && not (is_given wheel_source.path)))
        && (not (is_given wheel_source.path || is_wheel_url wheel_source.url)
            || not (truthy wheel_source.patches || truthy wheel_source.extras)))
source_errors_lem_example = source_errors_lem wheel_source

check_config_lem_example :
    truthy (check_config library) ≡ (is_library static_library && has_package_fields library)
check_config_lem_example = check_config_lem library

check_wheel_host_requirements_lem_example :
    truthy (check_wheel_host_requirements (λ names. []) wheel_source [] library)
    ≡ (is_wheel_url wheel_source.url && (false || has_built_fields library))
check_wheel_host_requirements_lem_example =
    check_wheel_host_requirements_lem (λ names. []) wheel_source [] library
