-- ===== src/Loader/Unpack/Laws.antt =====
-- What `unpack_buffer` does with its target, and what is recorded of a wheel.
use pyodide.Base.{
  ℕ, Text, codes, text_beq, text_eq, ◌==◌, ◌≡◌, refl, ◌∙◌, Bool, false, List, ◌∷◌, ◌++◌, Option,
  none, some, if◌then◌else◌, Result, ok, err, ◌>>=◌, Exception,
}
use pyodide.Base.Dict.{lookup}
use pyodide.Base.Strings.Methods.{strip}
use pyodide.Loader.Wheels.{WheelName, parse_wheel_name, wheel_dist_info_dir}
use pyodide.Loader.Sources.{Files, dist_name_of, get_dist_source, set_wheel_installer}
use pyodide.Loader.Sources.Laws.{installed_source_lem}
use pyodide.Loader.Unpack.{Archive, target_dirs, base_name, unpack_buffer}

relay :
    {A : Type 0} (m : Result Files) (g : Files → Result A)
    → let build : Files → Result (Option (List Text) × Files) = λ recorded. ok (none, recorded) in
      ((m >>= build) >>= λ r. g r.1) ≡ (m >>= g)
relay (ok files) g = refl
relay (err x) g = refl

module _ (archive : Archive) where
  -- The target "lib", which the documentation names, is not a key of TARGETS: with a filename, the call
  -- raises KeyError.
  pub unpack_buffer-lib :
      (a : ℕ) (filename : Text) (calculate_dynlibs : Bool) (installer source : Option Text)
      (files : Files)
      → unpack_buffer archive
          (record {
            filename = a ∷ filename;
            format = none;
            target = some (codes "lib");
            extract_dir = none;
            calculate_dynlibs = calculate_dynlibs;
            installer = installer;
            source = source;
          })
          files
        ≡ err (Exception.key_error (codes "lib"))
  unfolding unpack_buffer target_dirs lookup text_beq
  unpack_buffer-lib a filename calculate_dynlibs installer source files = refl

  -- A wheel is unpacked into the site packages, where its one dist-info directory then has its METADATA, with
  -- a source that is not empty and has no spaces at its ends: what is read there is the name of the package
  -- with that source, or with "default channel" for the source "pyodide".
  pub unpack_buffer-source :
      (space : ℕ → Bool) (url_of : Text → Result Text) (a b : ℕ)
      (filename source dist dist_name : Text) (wheel_name : WheelName) (installer : Option Text)
      (files unpacked : Files)
      → base_name archive (a ∷ filename) ≡ a ∷ filename
      → archive.suffix_of (a ∷ filename) ≡ codes ".whl"
      → archive.unpack_archive (a ∷ filename) archive.targets.site_packages none files ≡ ok unpacked
      → parse_wheel_name (a ∷ filename) ≡ ok wheel_name
      → wheel_dist_info_dir archive.lower archive.repr archive.namelist wheel_name.0 ≡ ok dist
      → dist_name_of space (archive.targets.site_packages ++ 47 ∷ dist) unpacked ≡ ok dist_name
      → strip space (b ∷ source) ≡ b ∷ source
      → (unpack_buffer archive
            (record {
              filename = a ∷ filename;
              format = none;
              target = some (codes "site");
              extract_dir = none;
              calculate_dynlibs = false;
              installer = installer;
              source = some (b ∷ source);
            })
            files
          >>= λ r. get_dist_source space url_of (archive.targets.site_packages ++ 47 ∷ dist) r.1)
        ≡ ok (
          dist_name,
          if b ∷ source == codes "pyodide" then codes "default channel" else b ∷ source,
        )
  unfolding unpack_buffer target_dirs lookup text_beq
  unpack_buffer-source space url_of a b filename source dist dist_name wheel_name installer files
        unpacked n x u p w d h =
      let installed =
        installed_source_lem space url_of archive.lower archive.repr (a ∷ filename)
          archive.targets.site_packages dist dist_name archive.namelist wheel_name installer b
          source unpacked p w d h in
      rw (n, x, u)
        (relay
            (set_wheel_installer archive.lower archive.repr (a ∷ filename) archive.namelist
              archive.targets.site_packages installer (some (b ∷ source)) unpacked)
            (get_dist_source space url_of (archive.targets.site_packages ++ 47 ∷ dist))
          ∙ installed)
