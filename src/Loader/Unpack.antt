-- ===== src/Loader/Unpack.antt =====
-- `unpack_buffer` on the files of the interpreter. An exception ends it; what it has done by then is not
-- modelled. The formats of `shutil`, with their extensions, and the unpacking itself are parameters.
pub mod Laws
use pyodide.Base.{
  ℕ, Text, codes, text_beq, text_eq, ◌==◌, Bool, true, false, ◌&&◌, ◌||◌, List, [], ◌∷◌, ◌++◌, elem,
  Option, none, some, if◌then◌else◌, Result, ok, err, ◌>>=◌, ◌>>◌, Exception,
}
use pyodide.Base.Dict.{Dict, lookup}
use pyodide.Base.Strings.Methods.{after_last, slice_from}
use pyodide.Loader.Sources.{Files, set_wheel_installer}
use pyodide.Loader.Dynlibs.{Paths, get_dynlibs}

unfoldable pub get_format : Dict Text (List Text) → Text → Result Text
unfolding elem text_beq codes
get_format [] format = err (Exception.value_error (codes "Unrecognized format " ++ format))
get_format ((fmt, extensions) ∷ formats) format =
    let rest = get_format formats format in
    if format == fmt || (elem format extensions || elem (46 ∷ format) extensions)
    then ok fmt
    else rest

-- The directories of TARGETS.
pub record Targets : Type 0 where
  pub site_packages : Text
  pub std_lib : Text
  pub dso_dir : Text

unfoldable pub target_dirs : Targets → Dict Text Text
unfolding codes
target_dirs targets =
    (codes "site", targets.site_packages)
    ∷ (codes "stdlib", targets.std_lib)
    ∷ (codes "dynlib", targets.dso_dir)
    ∷ []

-- `filename` is empty if it is not given. An argument that may be None is none also where it is empty.
pub record Arguments : Type 0 where
  pub filename : Text
  pub format : Option Text
  pub target : Option Text
  pub extract_dir : Option Text
  pub calculate_dynlibs : Bool
  pub installer : Option Text
  pub source : Option Text

-- The rest of the interpreter: `unpack_archive` unpacks the buffer, from a temporary file whose name ends with
-- the given text, into a directory, which exists; `suffix_of` is the suffix of a path, and the temporary
-- file's suffix is that of the text.
pub record Archive : Type 0 where
  pub formats : Dict Text (List Text)
  pub targets : Targets
  pub unpack_archive : Text → Text → Option Text → Files → Result Files
  pub namelist : List Text
  pub tar_names : List Text
  pub suffix_of : Text → Text
  pub lower : Text → Text
  pub repr : Text → Text
  pub paths : Paths
  pub extension_tags : List Text
  pub resolve : Text → Text → Text

module _ (archive : Archive) where
  abbrev pub format_or_none : Option Text → Result (Option Text)
  format_or_none none = ok none
  format_or_none (some format) = get_format archive.formats format >>= λ fmt. ok (some fmt)

  abbrev pub key_or_raise : Text → Option Text → Result Text
  key_or_raise key none = err (Exception.key_error key)
  key_or_raise key (some value) = ok value

  abbrev pub check_both : Option Text → Option Text → Result (Unit {0})
  check_both (some target) (some extract_dir) =
      err (Exception.value_error (codes "Cannot provide both 'target' and 'extract_dir'"))
  check_both (some target) none = ok tt
  check_both none extract_dir = ok tt

  abbrev pub extract_path_of : Option Text → Option Text → Result Text
  extract_path_of (some target) extract_dir =
      key_or_raise target (lookup target (target_dirs archive.targets))
  extract_path_of none (some extract_dir) = ok extract_dir
  extract_path_of none none = ok (codes ".")

  abbrev pub check_filename : Text → Option Text → Result (Unit {0})
  check_filename (a ∷ filename) format = ok tt
  check_filename [] (some format) = ok tt
  check_filename [] none =
      err (Exception.value_error (codes "At least one of filename and format must be provided"))

  -- filename.rpartition("/")[-1]
  unfoldable pub base_name : Text → Text
  unfolding after_last slice_from
  base_name filename = slice_from (after_last 47 filename) filename

  abbrev pub record_wheel : Arguments → Text → Text → Files → Result Files
  record_wheel arguments filename extract_path files =
      if archive.suffix_of filename == codes ".whl"
      then set_wheel_installer archive.lower archive.repr filename archive.namelist extract_path
          arguments.installer arguments.source files
      else ok files

  abbrev pub dynlibs_of : Arguments → Text → Text → Result (Option (List Text))
  dynlibs_of arguments filename extract_path =
      if arguments.calculate_dynlibs
      then (get_dynlibs archive.paths archive.extension_tags (archive.resolve extract_path)
            archive.namelist archive.tar_names (archive.suffix_of filename)
          >>= λ dynlibs. ok (some dynlibs))
      else ok none

  unfoldable pub unpack_buffer : Arguments → Files → Result (Option (List Text) × Files)
  unfolding get_format target_dirs lookup base_name set_wheel_installer get_dynlibs codes text_beq
  unpack_buffer arguments files = format_or_none arguments.format >>= λ format.
      check_both arguments.target arguments.extract_dir
      >> (check_filename arguments.filename format
          >> (extract_path_of arguments.target arguments.extract_dir >>= λ extract_path.
              let filename = base_name arguments.filename in
              archive.unpack_archive filename extract_path format files >>= λ unpacked.
              record_wheel arguments filename extract_path unpacked >>= λ recorded.
              dynlibs_of arguments filename extract_path >>= λ dynlibs. ok (dynlibs, recorded)))
