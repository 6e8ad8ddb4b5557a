-- ===== src/Helpers/Tests.antt =====
-- The names of a wheel at a concrete input.
use pyodide.Base.{codes, ◌≡◌, refl, ok, arith}
use pyodide.Base.Strings.Methods.{ends_with, starts_with}
use pyodide.Helpers.{Entries, nothing, file, directory, or_none, parse_top_level_import_name}
use pyodide.Helpers.Laws.{directories, import_names, parse_top_level_import_name_lem}

abbrev wheel_entries : Entries
wheel_entries = file (codes "six.py") (
    directory (codes "pkg") (directory (codes "sub") (file (codes "m.py") nothing) nothing)
      (directory (codes "pkg-1.dist-info") (file (codes "METADATA") nothing) nothing))

parse_top_level_import_name_lem_example :
    parse_top_level_import_name 3 (codes "a.whl") wheel_entries
    ≡ ok (or_none (import_names wheel_entries))
unfolding codes ends_with starts_with directories
parse_top_level_import_name_lem_example =
    parse_top_level_import_name_lem 3 (codes "a.whl") wheel_entries refl (omega arith)
