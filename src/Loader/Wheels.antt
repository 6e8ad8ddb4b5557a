-- ===== src/Loader/Wheels.antt =====
-- The names of wheels, and of the .dist-info directory that a wheel contains.
pub mod Laws
use pyodide.Base.{
  ℕ, Text, codes, Bool, true, false, ◌||◌, not, List, [], ◌∷◌, ◌++◌, map, filter, eqb,
  if◌then◌else◌, text_eq, Result, ok, err, Exception,
}
use mathlib.Core.List.{reverse}
use pyodide.Base.Set.{update}
use pyodide.Base.Strings.Methods.{split, first_part, join, starts_with, ends_with}

-- name, version, python_tag, abi_tag, platform
abbrev pub WheelName : Type 0
WheelName = Text × Text × Text × Text × Text

-- The tokens, the last one first.
abbrev pub wheel_from : Text → List Text → Result WheelName
wheel_from filename (platform ∷ abi_tag ∷ python_tag ∷ version ∷ token ∷ tokens) =
    ok (join (codes "-") (reverse (token ∷ tokens)), version, python_tag, abi_tag, platform)
wheel_from filename _ =
    err (Exception.value_error (filename ++ codes " is not a valid wheel file name."))

unfoldable pub parse_wheel_name : Text → Result WheelName
unfolding codes split join
parse_wheel_name filename = wheel_from filename (reverse (split 45 filename))

-- One of - _ .
abbrev pub is_separator : ℕ → Bool
is_separator a = eqb a 45 || (eqb a 95 || eqb a 46)

-- re.sub("[-_.]+", "-", name): `run` is whether the character before was a separator.
unfoldable pub collapse : Bool → Text → Text
collapse run [] = []
collapse run (a ∷ name) =
    let in_run = collapse true name in
    let after = a ∷ collapse false name in
    if is_separator a then (if run then in_run else 45 ∷ in_run) else after

-- `lower` is `str.lower`.
unfoldable pub canonicalize_name : (Text → Text) → Text → Text
unfolding collapse
canonicalize_name lower name = lower (collapse false name)

-- p.split("/", 1)[0]
unfoldable pub top_dir : Text → Text
unfolding split
top_dir path = first_part (split 47 path)

-- The exceptions UnsupportedWheel; `repr` is Python's, and so is the order of the set.
abbrev pub unsupported : Text → Result Text
unsupported message = err (Exception.build_error 0 message)

unfoldable pub info_dirs : List Text → List Text
unfolding top_dir update filter codes
info_dirs namelist =
    filter (λ s. ends_with s (codes ".dist-info")) (update (map top_dir namelist) [])

abbrev pub only_info_dir : (lower repr : Text → Text) → Text → List Text → Result Text
only_info_dir lower repr name [] =
    unsupported (codes ".dist-info directory not found in wheel " ++ repr name)
only_info_dir lower repr name (info_dir ∷ []) =
    if starts_with (canonicalize_name lower info_dir) (canonicalize_name lower name)
    then ok info_dir
    else unsupported (
        codes ".dist-info directory "
        ++ (repr info_dir
            ++ (codes " does not start with " ++ repr (canonicalize_name lower name))))
only_info_dir lower repr name (a ∷ b ∷ dirs) = unsupported (
    codes "multiple .dist-info directories found in wheel "
    ++ (repr name ++ (codes ": " ++ join (codes ", ") (a ∷ b ∷ dirs))))

unfoldable pub wheel_dist_info_dir : (lower repr : Text → Text) → List Text → Text → Result Text
unfolding info_dirs canonicalize_name starts_with join codes
wheel_dist_info_dir lower repr namelist name = only_info_dir lower repr name (info_dirs namelist)
