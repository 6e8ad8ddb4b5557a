-- ===== src/Loader/Tests.antt =====
-- The theorems on unpacked packages at concrete inputs.
use pyodide.Base.{
  ℕ, Text, codes, text_beq, text_eq, ◌==◌, ◌≡◌, refl, Bool, true, false, ◌&&◌, ◌||◌, map, List, [],
  ◌∷◌, ◌++◌, none, some, all, elem, eqb, filter, ok, ◌>>=◌, if◌then◌else◌,
}
use pyodide.Base.Dict.{lookup}
use pyodide.Base.Set.{update}
use pyodide.Base.Strings.Methods.{
  join, strip, strip_start, split, starts_with, ends_with, slice_from, after_last,
}
use pyodide.Loader.Wheels.{
  WheelName, parse_wheel_name, top_dir, wheel_dist_info_dir, info_dirs, canonicalize_name, collapse,
}
use pyodide.Loader.Wheels.Laws.{parse_wheel_name-join, wheel_dist_info_dir_lem}
use pyodide.Loader.Sources.{Files, path_in, dist_name_of, find_name, get_dist_source}
use pyodide.Loader.Dynlibs.{Paths}
use pyodide.Loader.Unpack.{Archive, unpack_buffer, base_name}
use pyodide.Loader.Unpack.Laws.{unpack_buffer-source}

abbrev wheel : Text
wheel = codes "a-b-1-py3-none-any"

abbrev read_name : WheelName
read_name = (codes "a-b", codes "1", codes "py3", codes "none", codes "any")

parse_wheel_name-join_example :
    parse_wheel_name
      (join (codes "-") (codes "a-b" ∷ codes "1" ∷ codes "py3" ∷ codes "none" ∷ codes "any" ∷ []))
    ≡ ok read_name
unfolding codes all
parse_wheel_name-join_example =
    parse_wheel_name-join (codes "a-b") (codes "1") (codes "py3") (codes "none") (codes "any")
      (refl, (refl, (refl, (refl, tt))))

abbrev dist : Text
dist = codes "a_b.dist-info"

abbrev members : List Text
members = codes "a/m.py" ∷ codes "a_b.dist-info/METADATA" ∷ []

abbrev unchanged : Text → Text
unchanged s = s

wheel_dist_info_dir_lem_example :
    ((s : Text) → (elem s (map top_dir members) && ends_with s (codes ".dist-info")) ≡ (s == dist))
    × (starts_with (canonicalize_name unchanged dist) (canonicalize_name unchanged (codes "a-b"))
        ≡ true)
unfolding codes text_beq elem filter update top_dir split starts_with ends_with wheel_dist_info_dir
    info_dirs canonicalize_name collapse
wheel_dist_info_dir_lem_example =
    wheel_dist_info_dir_lem unchanged unchanged members (codes "a-b") dist refl

abbrev blank : ℕ → Bool
blank a = eqb a 32 || eqb a 10

abbrev files : Files
files = (codes "/site/a_b.dist-info/METADATA", codes "Name: ab") ∷ []

abbrev paths : Paths
paths = record {
  name_of = unchanged;
  suffixes_of = λ p. codes ".cpython-39" ∷ codes ".so" ∷ [];
  is_sharedlib = λ p. true;
  is_platform_tag = λ t. starts_with t (codes ".cpython-");
}

abbrev archive : Archive
archive = record {
  formats = [];
  targets = record {
    site_packages = codes "/site";
    std_lib = codes "/lib";
    dso_dir = codes "/usr/lib";
  };
  unpack_archive = λ name path format old. ok files;
  namelist = members;
  tar_names = [];
  suffix_of = λ p. codes ".whl";
  lower = unchanged;
  repr = unchanged;
  paths = paths;
  extension_tags = [];
  resolve = λ dir path. dir ++ 47 ∷ path;
}

unpack_buffer-source_example :
    (unpack_buffer archive
        (record {
          filename = wheel;
          format = none;
          target = some (codes "site");
          extract_dir = none;
          calculate_dynlibs = false;
          installer = none;
          source = some (codes "PyPI");
        })
        []
      >>= λ r. get_dist_source blank (λ t. ok t) (codes "/site" ++ 47 ∷ dist) r.1)
    ≡ ok (
      codes "ab",
      if codes "PyPI" == codes "pyodide" then codes "default channel" else codes "PyPI",
    )
unfolding codes text_beq elem filter update top_dir split join starts_with ends_with
    wheel_dist_info_dir info_dirs canonicalize_name collapse parse_wheel_name dist_name_of find_name
    path_in lookup strip strip_start slice_from base_name after_last
unpack_buffer-source_example =
    unpack_buffer-source archive blank (λ t. ok t) 97 80 (codes "-b-1-py3-none-any") (codes "yPI")
      dist (codes "ab") read_name none [] files refl refl refl refl refl refl refl
