-- ===== src/Pywasmcross/Exports/Flags.antt =====
-- Which symbols a link exports in the mode `pyinit`.
use pyodide.Base.{
  Text, codes, ◌≡◌, refl, sym, ◌∙◌, ◌⊎◌, inl, inr, Bool, true, false, ◌||◌, List, [], ◌∷◌, ◌++◌,
  map, filter, ◌≢◌, ◌==◌, Completed, nat_eq, Result, ok, err, Exception, arith, Bool-cases,
  eq_of_beq, any,
}
use pyodide.Base.Strings.Methods.{starts_with, ends_with, ends_with_any}
use pyodide.Pywasmcross.Types.{Surroundings, pyinit}
use pyodide.Pywasmcross.Exports.{
  is_pyinit, filter_objects, calculate_object_exports_nm, calculate_exports, get_export_flags,
}

-- The second list has the words of the first that pass the test, in their order, and no others.
abbrev pub Picks : (Text → Bool) → List Text → List Text → Type 0
Picks test [] picked = picked ≡ []
Picks test (x ∷ l) picked =
    ((test x ≡ true) × ((rest : List Text) × (picked ≡ x ∷ rest) × Picks test l rest))
    ⊎ ((test x ≡ false) × Picks test l picked)

filter-Picks :
    (test p : Text → Bool) (l : List Text) → ((x : Text) → p x ≡ test x) → Picks test l (filter p l)
unfolding filter
filter-Picks test p [] h = refl
filter-Picks test p (x ∷ l) h = elim (Bool-cases (p x)) [
  | inl passes ↦ inl (sym (h x) ∙ passes, (filter p l, rw passes refl, filter-Picks test p l h))
  | inr differs ↦ inr (sym (h x) ∙ differs, rw differs (filter-Picks test p l h))
]

-- An object file, an archive, or a response file; a name that Python looks for in a module.
abbrev pub names_object : Text → Bool
names_object arg =
    ends_with arg (codes ".o") || (ends_with arg (codes ".a") || starts_with arg (codes "@"))

abbrev pub names_module : Text → Bool
names_module x = starts_with x (codes "PyInit")

-- The flags for a list of exported names.
abbrev pub flags_for : Surroundings → List Text → List Text
flags_for env names =
    codes "-sSIDE_MODULE=2"
    ∷ (codes "-sEXPORTED_FUNCTIONS=" ++ env.repr (map (λ x. codes "_" ++ x) names))
    ∷ []

abbrev pub nm_run : Surroundings → List Text → Completed
nm_run env objects = env.run (codes "emnm" ∷ codes "-j" ∷ codes "--export-symbols" ∷ objects)

abbrev pub ExportsModule : Surroundings → Completed → Result (List Text) → Type 0
ExportsModule env done r =
    ((done.returncode ≢ 0) × (r ≡ err (Exception.system_exit done.returncode)))
    ⊎ ((done.returncode ≡ 0)
        × ((names : List Text) × Picks names_module (env.splitlines done.stdout) names
            × (r ≡ ok (flags_for env names))))

filter_objects-Picks : (line : List Text) → Picks names_object line (filter_objects line)
unfolding filter_objects ends_with_any
filter_objects-Picks line =
    filter-Picks names_object
      (λ arg. ends_with_any arg (codes ".a" ∷ codes ".o" ∷ []) || starts_with arg (codes "@")) line
      (λ x. unfold any in ground arith)

-- In the mode `pyinit`, emnm runs on the object files, archives and response files of the line, in their
-- order. If it succeeds, the flags export those names that it prints which start with `PyInit`, and no
-- other; if it fails, the program ends with its code.
pub get_export_flags-pyinit :
    (env : Surroundings) (line : List Text)
    → (objects : List Text) × Picks names_object line objects
      × ExportsModule env (nm_run env objects) (get_export_flags env line pyinit)
unfolding get_export_flags calculate_exports calculate_object_exports_nm is_pyinit
get_export_flags-pyinit env line =
    let objects = filter_objects line in
    let done = nm_run env objects in
    let printed = env.splitlines done.stdout in
    (
      objects,
      filter_objects-Picks line,
      elim (Bool-cases (done.returncode == 0)) [
        | inl succeeded ↦ inr (
          eq_of_beq done.returncode 0 succeeded,
          (
            filter is_pyinit printed,
            filter-Picks names_module is_pyinit printed (λ x. refl),
            rw succeeded refl,
          ),
        )
        | inr failed ↦ inl (λ e. ground (arith, failed, e), rw failed refl)
      ],
    )
