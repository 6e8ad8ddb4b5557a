-- ===== src/Loader/Sources.antt =====
-- Where an installed package came from: `set_wheel_installer` writes it, `get_dist_source` reads it. The
-- files are a dictionary of texts by path; `space` is what Python's `strip` strips.
pub mod Laws
use pyodide.Base.{
  ℕ, Text, String, codes, text_beq, text_eq, ◌==◌, Bool, true, false, List, [], ◌∷◌, ◌++◌, Option,
  none, some, if◌then◌else◌, Result, ok, err, ◌>>=◌, Exception,
}
use pyodide.Base.Dict.{Dict, lookup, put}
use pyodide.Base.Strings.Methods.{starts_with, slice_from, strip, split}
use pyodide.Loader.Wheels.{WheelName, parse_wheel_name, wheel_dist_info_dir}

abbrev pub Files : Type 0
Files = Dict Text Text

-- directory / name
unfoldable pub path_in : Text → String → Text
unfolding codes
path_in directory name = directory ++ 47 ∷ codes name

-- if text: path.write_text(text)
unfoldable pub write_if : Option Text → Text → Files → Files
unfolding put
write_if none path files = files
write_if (some []) path files = files
write_if (some (a ∷ text)) path files = put path (a ∷ text) files

-- `namelist` is that of the archive.
unfoldable pub set_wheel_installer :
    (lower repr : Text → Text)
    → Text
    → List Text
    → Text
    → Option Text
    → Option Text
    → Files
    → Result Files
unfolding parse_wheel_name wheel_dist_info_dir write_if path_in
set_wheel_installer lower repr filename namelist target_dir installer source files =
    parse_wheel_name filename >>= λ wheel_name.
    wheel_dist_info_dir lower repr namelist wheel_name.0 >>= λ dist_info_name.
    let dist_info = target_dir ++ 47 ∷ dist_info_name in
    ok (
      write_if source (path_in dist_info "PYODIDE_SOURCE")
        (write_if installer (path_in dist_info "INSTALLER") files))

module _ (space : ℕ → Bool) where
  unfoldable pub find_name : List Text → Option Text
  unfolding codes starts_with slice_from strip
  find_name [] = none
  find_name (line ∷ lines) =
      let rest = find_name lines in
      if starts_with line (codes "Name:") then some (strip space (slice_from 5 line)) else rest

  abbrev pub name_or_raise : Option Text → Result Text
  name_or_raise none = err (Exception.value_error (codes "Package name not found in METADATA"))
  name_or_raise (some name) = ok name

  abbrev pub name_in : Text → Option Text → Result Text
  name_in path none = err (Exception.os_error path)
  name_in path (some metadata) = name_or_raise (find_name (split 10 metadata))

  -- The name in METADATA.
  unfoldable pub dist_name_of : Text → Files → Result Text
  unfolding codes lookup split find_name path_in
  dist_name_of dist_path files =
      name_in (path_in dist_path "METADATA") (lookup (path_in dist_path "METADATA") files)

  -- `url_of` is `json.loads(text)["url"]`.
  module _ (url_of : Text → Result Text) where
    unfoldable pub unrecorded_source : Text → Files → Result Text
    unfolding codes lookup strip path_in
    unrecorded_source dist_path files = elim (lookup (path_in dist_path "direct_url.json") files) [
      | some direct_url ↦ url_of direct_url
      | none ↦ elim (lookup (path_in dist_path "INSTALLER") files) [
        | some installer ↦ ok (strip space installer ++ codes " (index unknown)")
        | none ↦ ok (codes "Unknown")
      ]
    ]

    abbrev pub recorded_source : Text → Result Text → Result Text
    recorded_source [] otherwise = otherwise
    recorded_source (a ∷ source) otherwise =
        if a ∷ source == codes "pyodide" then ok (codes "default channel") else ok (a ∷ source)

    abbrev pub source_from : Option Text → Result Text → Result Text
    source_from none otherwise = otherwise
    source_from (some text) otherwise = recorded_source (strip space text) otherwise

    unfoldable pub source_of : Text → Files → Result Text
    unfolding codes text_beq lookup strip unrecorded_source path_in
    source_of dist_path files =
        source_from (lookup (path_in dist_path "PYODIDE_SOURCE") files)
          (unrecorded_source dist_path files)

    unfoldable pub get_dist_source : Text → Files → Result (Text × Text)
    unfolding dist_name_of source_of
    get_dist_source dist_path files = dist_name_of dist_path files >>= λ dist_name.
        source_of dist_path files >>= λ source. ok (dist_name, source)

    -- The dist-info directories of SITE_PACKAGES, in the order of `glob`.
    unfoldable pub init_loaded_packages :
        List Text → Files → Dict Text Text → Result (Dict Text Text)
    unfolding get_dist_source put
    init_loaded_packages [] files loaded = ok loaded
    init_loaded_packages (dist_path ∷ dist_paths) files loaded =
        get_dist_source dist_path files >>= λ (dist_name, dist_source).
        init_loaded_packages dist_paths files (put dist_name dist_source loaded)
