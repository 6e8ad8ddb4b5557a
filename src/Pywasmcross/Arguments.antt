-- ===== src/Pywasmcross/Arguments.antt =====
-- The rewriting of one argument: the `replay_genargs_*` functions of pywasmcross.py.
pub mod Laws
use pyodide.Base.{
  ℕ, Text, codes, Bool, true, false, not, ◌&&◌, ◌||◌, List, [], ◌∷◌, ◌++◌, Option, none, some, elem,
  ◌==◌, text_eq, length, ltb, filter, if◌then◌else◌, Result, ok, assert, ◌>>=◌, ◌>>◌,
}
use pyodide.Base.Strings.Methods.{starts_with, starts_with_any, slice_from, split, join, replace}
use pyodide.Pywasmcross.Types.{Surroundings}

-- The new argument, or none to delete it, and the libraries used so far.
unfoldable pub replay_genargs_handle_dashl : Text → List Text → Result (Option Text × List Text)
replay_genargs_handle_dashl arg used_libs = do
  assert (starts_with arg (codes "-l"))
  if arg == codes "-lffi"
      then ok (none, used_libs)
      else if arg == codes "-lgfortran"
      then ok (none, used_libs)
      else if elem arg used_libs
      then ok (none, used_libs)
      else ok (some arg, arg ∷ used_libs)

unfoldable pub replay_genargs_handle_dash_i : Surroundings → Text → Text → Result (Option Text)
replay_genargs_handle_dash_i env arg target_install_dir = do
  assert (starts_with arg (codes "-I"))
  let include_path = env.resolve (slice_from 2 arg)
  if starts_with (slice_from 2 arg) (codes "/usr")
      then ok none
      else if starts_with include_path (env.sys_prefix ++ codes "/include/python")
      then ok (some (replace (codes "-I" ++ env.sys_prefix) (codes "-I" ++ target_install_dir) arg))
      else if starts_with include_path (env.sys_base_prefix ++ codes "/include/python")
      then ok (
          some (replace (codes "-I" ++ env.sys_base_prefix) (codes "-I" ++ target_install_dir) arg))
      else ok (some arg)

unfoldable pub ignored_link_opts : List Text
ignored_link_opts =
    codes "-Bsymbolic-functions"
    ∷ codes "--strip-all"
    ∷ codes "-strip-all"
    ∷ codes "--sort-common"
    ∷ codes "--as-needed"
    ∷ []

unfoldable pub ignored_link_prefixes : List Text
ignored_link_prefixes =
    codes "--sysroot="
    ∷ codes "--version-script="
    ∷ codes "-R/"
    ∷ codes "-R."
    ∷ codes "--exclude-libs="
    ∷ []

-- An option for the linker that survives the loop over `link_opts`.
unfoldable pub keeps_link_opt : Text → Bool
unfolding ignored_link_opts ignored_link_prefixes
keeps_link_opt opt =
    not (elem opt ignored_link_opts) && not (starts_with_any opt ignored_link_prefixes)

abbrev pub rest_of : List Text → List Text
rest_of [] = []
rest_of (w ∷ ws) = ws

unfoldable pub replay_genargs_handle_linker_opts : Text → Result (Option Text)
unfolding keeps_link_opt
replay_genargs_handle_linker_opts arg = do
  assert (starts_with arg (codes "-Wl"))
  let link_opts = rest_of (split b',' arg)
  let new_link_opts = codes "-Wl" ∷ filter keeps_link_opt link_opts
  if ltb 1 (length new_link_opts) then ok (some (join (b',' ∷ []) new_link_opts)) else ok none

unfoldable pub ignored_arguments : List Text
ignored_arguments =
    codes "-pthread"
    ∷ codes "-ffixed-form"
    ∷ codes "-fallow-argument-mismatch"
    ∷ codes "-bundle"
    ∷ codes "-undefined"
    ∷ codes "dynamic_lookup"
    ∷ codes "-mpopcnt"
    ∷ codes "-Bsymbolic-functions"
    ∷ codes "-fno-second-underscore"
    ∷ codes "-fstack-protector"
    ∷ codes "-fno-strict-overflow"
    ∷ codes "-mno-sse2"
    ∷ codes "-mno-avx2"
    ∷ codes "-std=legacy"
    ∷ []

unfoldable pub replay_genargs_handle_argument : Text → Result (Option Text)
unfolding ignored_arguments
replay_genargs_handle_argument arg = do
  assert (not (starts_with arg (codes "-I")))
  assert (not (starts_with arg (codes "-l")))
  assert (not (starts_with arg (codes "-Wl,")))
  if starts_with arg (codes "-L/usr")
      then ok none
      else if elem arg ignored_arguments
      then ok none
      else if starts_with arg (codes "-J")
      then ok none
      else ok (some arg)
