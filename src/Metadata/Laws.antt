-- ===== src/Metadata/Laws.antt =====
-- Which sections are accepted.
use pyodide.Base.{
  Text, codes, text_beq, text_eq, ◌≡◌, Bool, true, false, not, ◌&&◌, ◌||◌, List, ◌∷◌, elem, arith,
}
use pyodide.Buildall.Package.{
  BuildSpecType, python_package, static_library, shared_library, cpython_module,
}
use pyodide.Metadata.{
  SourceSpec, is_given, truthy, truthy_option, check_url_has_hash, check_in_tree_url, is_wheel_url,
  check_patches_extra, source_errors, BuildSpec, items, first_disallowed, library_keys,
  check_config, wheel_keys, check_wheel_host_requirements,
}

-- A source section is accepted exactly if its url, if there is one, comes with a hash and without a path, and
-- if it has neither patches nor extras where it has a path or its url is a wheel's.
pub source_errors_lem :
    (s : SourceSpec)
    → truthy (source_errors s)
      ≡ not (
          (not (is_given s.url) || (is_given s.sha256 && not (is_given s.path)))
          && (not (is_given s.path || is_wheel_url s.url)
              || not (truthy s.patches || truthy s.extras)))
unfolding source_errors check_url_has_hash check_in_tree_url check_patches_extra
source_errors_lem s = ground arith

truthy-first_disallowed :
    (allowed : List Text) (message : Text → Text) (key : Text) (val : Bool)
    (values : List (Text × Bool))
    → truthy (first_disallowed allowed message ((key, val) ∷ values))
      ≡ ((val && not (elem key allowed)) || truthy (first_disallowed allowed message values))
unfolding first_disallowed
truthy-first_disallowed allowed message key val values = ground arith

-- Something is set that only a Python package has.
abbrev pub has_package_fields : BuildSpec → Bool
has_package_fields b =
    truthy b.backend_flags
    || (truthy b.cflags
        || (truthy b.cxxflags
            || (truthy b.ldflags
                || (truthy_option b.cross_script
                    || (truthy_option b.post
                        || (truthy b.retain_test_patterns
                            || (b.vendor_sharedlib
                                || (b.cross_build_env || truthy b.cross_build_files))))))))

abbrev pub is_library : BuildSpecType → Bool
is_library python_package = false
is_library static_library = true
is_library shared_library = true
is_library cpython_module = true

-- A build section is refused exactly if it is a library's or a CPython module's and sets something other
-- than its type, its script, its exports and whether tests are unvendored.
pub check_config_lem :
    (b : BuildSpec) → truthy (check_config b) ≡ (is_library b.package_type && has_package_fields b)
unfolding check_config items first_disallowed library_keys elem text_beq codes
check_config_lem b = ground arith

-- Something is set that a wheel's recipe may not set.
abbrev pub has_built_fields : BuildSpec → Bool
has_built_fields b =
    truthy b.backend_flags
    || (truthy b.cflags
        || (truthy b.cxxflags
            || (truthy b.ldflags
                || (truthy_option b.cross_script
                    || (truthy_option b.script
                        || (truthy b.retain_test_patterns || b.vendor_sharedlib))))))

-- A recipe whose source is a wheel is refused exactly if it has requirements for building, or sets a script or
-- something else that a build of its sources reads; another recipe is not refused for this.
pub check_wheel_host_requirements_lem :
    (repr_list : List Text → Text) (source : SourceSpec) (host : List Text) (build : BuildSpec)
    → truthy (check_wheel_host_requirements repr_list source host build)
      ≡ (is_wheel_url source.url && (truthy host || has_built_fields build))
unfolding check_wheel_host_requirements items first_disallowed wheel_keys elem text_beq codes
check_wheel_host_requirements_lem repr_list source host build = ground arith
