-- ===== src/Runner/Imports/Path.antt =====
-- How `pyimport_impl` takes a path apart.
use pyodide.Base.{
  ℕ, suc, ◌-◌, Text, ◌≡◌, refl, ap, false, List, [], ◌∷◌, ◌++◌, eqb, all, length, Result, bind-ok,
  ◌>>=◌, arith,
}
use pyodide.Base.Strings.Methods.{after_last, slice_to, slice_from}
use pyodide.Base.Strings.Laws.{Lacks}
use pyodide.Runner.Imports.{rsplit_once, pyimport_impl}

after_last-Lacks : (c : ℕ) (s : Text) → Lacks c s → after_last c s ≡ 0
unfolding after_last all
after_last-Lacks c [] h = refl
after_last-Lacks c (a ∷ s) h = ground (arith, after_last-Lacks c s)

after_last-append : (c : ℕ) (s t : Text) → Lacks c t → after_last c (s ++ c ∷ t) ≡ suc (length s)
unfolding after_last
after_last-append c [] t h = ground (arith, after_last-Lacks c t h)
after_last-append c (a ∷ s) t h = ground (arith, after_last-append c s t h)

slice_to-append : (s t : Text) → slice_to (length s) (s ++ t) ≡ s
unfolding slice_to
slice_to-append [] t = refl
slice_to-append (a ∷ s) t = ap (λ l. a ∷ l) (slice_to-append s t)

slice_from-append : (c : ℕ) (s t : Text) → slice_from (suc (length s)) (s ++ c ∷ t) ≡ t
unfolding slice_from
slice_from-append c [] t = refl
slice_from-append c (a ∷ s) t = slice_from-append c s t

rsplit_once-dotted :
    (stem attribute : Text)
    → Lacks 46 attribute
    → rsplit_once (stem ++ 46 ∷ attribute) ≡ (stem, attribute ∷ [])
unfolding rsplit_once
rsplit_once-dotted stem attribute h =
    let n = length stem in
    let back : suc n - 1 ≡ n = omega arith in
    let dotted : eqb (suc n) 0 ≡ false = ground arith in
    rw
      (
        after_last-append 46 stem attribute h,
        dotted,
        back,
        slice_to-append stem (46 ∷ attribute),
        slice_from-append 46 stem attribute,
      )
      refl

rsplit_once-plain : (path : Text) → Lacks 46 path → rsplit_once path ≡ (path, [])
unfolding rsplit_once
rsplit_once-plain path h = rw (after_last-Lacks 46 path h) refl

module _ {M : Type 0} (import_module : Text → List Text → Result M)
    (get_attribute : M → Text → Result M) where
  -- A path that has a full stop is imported as what stands before the last one, with what stands after it
  -- as its attribute, which is returned; a path without one is imported as it is.
  pub pyimport_impl_lem :
      (stem attribute : Text)
      → Lacks 46 attribute
      → (pyimport_impl import_module get_attribute (stem ++ 46 ∷ attribute)
          ≡ (import_module stem (attribute ∷ []) >>= λ res. get_attribute res attribute))
        × (pyimport_impl import_module get_attribute attribute ≡ import_module attribute [])
  unfolding pyimport_impl
  pyimport_impl_lem stem attribute h = (
    rw (rsplit_once-dotted stem attribute h) refl,
    rw (rsplit_once-plain attribute h) (bind-ok (import_module attribute [])),
  )
