-- ===== src/Loader/Sources/Laws.antt =====
-- The source that is written is the one that is read.
use pyodide.Base.{
  ℕ, Text, String, codes, text_beq, text_eq, ◌==◌, ◌≡◌, refl, ap, ◌∙◌, Bool, true, false, List, [],
  ◌∷◌, ◌++◌, Option, none, some, if◌then◌else◌, Result, ok, ◌>>=◌, arith,
}
use pyodide.Base.Dict.{lookup, put, lookup-put}
use pyodide.Base.Strings.Methods.{strip}
use pyodide.Loader.Wheels.{WheelName, parse_wheel_name, wheel_dist_info_dir}
use pyodide.Loader.Sources.{
  Files, path_in, write_if, set_wheel_installer, dist_name_of, unrecorded_source, recorded_source,
  source_from, name_in, source_of, get_dist_source,
}

text_beq-append : (d s t : Text) → text_beq (d ++ s) (d ++ t) ≡ text_beq s t
unfolding text_beq
text_beq-append [] s t = refl
text_beq-append (a ∷ d) s t = ground (arith, text_beq-append d s t)

path_in-beq :
    (d : Text) (m n : String) → text_beq (path_in d m) (path_in d n) ≡ text_beq (codes m) (codes n)
unfolding path_in text_beq
path_in-beq d m n = ground (arith, text_beq-append d (47 ∷ codes m) (47 ∷ codes n))

lookup-write_if :
    (path other : Text) (text : Option Text) (files : Files)
    → text_beq other path ≡ false
    → lookup other (write_if text path files) ≡ lookup other files
unfolding write_if
lookup-write_if path other none files h = refl
lookup-write_if path other (some []) files h = refl
lookup-write_if path other (some (a ∷ text)) files h =
    ground (arith, lookup-put other path (a ∷ text) files)

bind-if :
    (b : Bool) (s t name : Text)
    → (let build : Text → Result (Text × Text) = λ source. ok (name, source) in
        (if b then ok s else ok t) >>= build)
      ≡ ok (name, if b then s else t)
bind-if true s t name = refl
bind-if false s t name = refl

module _ (space : ℕ → Bool) (url_of : Text → Result Text) where
  -- The files that a wheel is recorded in, from those with its METADATA.
  abbrev pub recorded : Text → Option Text → Option Text → Files → Files
  recorded dist installer source files =
      write_if source (path_in dist "PYODIDE_SOURCE")
        (write_if installer (path_in dist "INSTALLER") files)

  lookup-recorded :
      (dist : Text) (name : String) (installer source : Option Text) (files : Files)
      → text_beq (codes name) (codes "PYODIDE_SOURCE") ≡ false
      → text_beq (codes name) (codes "INSTALLER") ≡ false
      → lookup (path_in dist name) (recorded dist installer source files)
        ≡ lookup (path_in dist name) files
  lookup-recorded dist name installer source files h k =
      lookup-write_if (path_in dist "PYODIDE_SOURCE") (path_in dist name) source
        (write_if installer (path_in dist "INSTALLER") files)
        (path_in-beq dist name "PYODIDE_SOURCE" ∙ h)
      ∙ lookup-write_if (path_in dist "INSTALLER") (path_in dist name) installer files
          (path_in-beq dist name "INSTALLER" ∙ k)

  dist_name_of-recorded :
      (dist : Text) (installer source : Option Text) (files : Files)
      → dist_name_of space dist (recorded dist installer source files)
        ≡ dist_name_of space dist files
  unfolding dist_name_of codes text_beq
  dist_name_of-recorded dist installer source files =
      ap (name_in space (path_in dist "METADATA"))
        (lookup-recorded dist "METADATA" installer source files refl refl)

  source_of-recorded :
      (dist : Text) (installer : Option Text) (a : ℕ) (source : Text) (files : Files)
      → strip space (a ∷ source) ≡ a ∷ source
      → source_of space url_of dist (recorded dist installer (some (a ∷ source)) files)
        ≡ (if a ∷ source == codes "pyodide" then ok (codes "default channel") else ok (a ∷ source))
  unfolding source_of write_if
  source_of-recorded dist installer a source files h =
      let path = path_in dist "PYODIDE_SOURCE" in
      let files' = write_if installer (path_in dist "INSTALLER") files in
      let found : lookup path (put path (a ∷ source) files') ≡ some (a ∷ source) =
        lookup-put path path (a ∷ source) files' ∙ ground (arith, text_eq.beq_iff path path) in
      let otherwise = unrecorded_source space url_of dist (put path (a ∷ source) files') in
      ap (λ o. source_from space url_of o otherwise) found
      ∙ ap (λ t. recorded_source space url_of t otherwise) h

  -- A wheel that contains one dist-info directory, with its METADATA, is recorded with a source that has no
  -- spaces at its ends and is not empty: read back, it is its name with that source, or with "default
  -- channel" for the source "pyodide", whatever the installer is and whatever else is in the directory.
  pub installed_source_lem :
      (lower repr : Text → Text) (filename target_dir dist dist_name : Text) (namelist : List Text)
      (wheel_name : WheelName) (installer : Option Text) (a : ℕ) (source : Text) (files : Files)
      → parse_wheel_name filename ≡ ok wheel_name
      → wheel_dist_info_dir lower repr namelist wheel_name.0 ≡ ok dist
      → dist_name_of space (target_dir ++ 47 ∷ dist) files ≡ ok dist_name
      → strip space (a ∷ source) ≡ a ∷ source
      → (set_wheel_installer lower repr filename namelist target_dir installer
            (some (a ∷ source))
            files
          >>= get_dist_source space url_of (target_dir ++ 47 ∷ dist))
        ≡ ok (
          dist_name,
          if a ∷ source == codes "pyodide" then codes "default channel" else a ∷ source,
        )
  unfolding set_wheel_installer get_dist_source
  installed_source_lem lower repr filename target_dir dist dist_name namelist wheel_name installer a
        source files p w n h =
      let path = target_dir ++ 47 ∷ dist in
      let name = dist_name_of-recorded path installer (some (a ∷ source)) files ∙ n in
      let read = source_of-recorded path installer a source files h in
      rw (p, w, name, read)
        (bind-if (a ∷ source == codes "pyodide") (codes "default channel") (a ∷ source) dist_name)
