-- ===== src/Loader/Wheels/Laws.antt =====
-- Wheel names are read as they are written.
use pyodide.Base.{
  ℕ, Text, codes, ◌≡◌, refl, ap, sym, ◌∙◌, true, List, [], ◌∷◌, ◌++◌, map, eqb, text_eq, elem,
  elem-filter, elem-nil, elem-cons, ◌&&◌, ◌==◌, ok, Bool-cases, inl, inr, arith,
}
use mathlib.Core.List.{reverse, reverse-append, reverse-reverse, reverse-cons}
use pyodide.Base.Set.{update, elem-update}
use pyodide.Base.Strings.Methods.{split, join, cons_head, starts_with, ends_with}
use pyodide.Base.Strings.Laws.{AllLack, split-join}
use pyodide.Loader.Wheels.{
  wheel_from, parse_wheel_name, top_dir, info_dirs, only_info_dir, wheel_dist_info_dir,
  canonicalize_name,
}

split-nonempty : (c : ℕ) (s : Text) → (w : Text) × (ws : List Text) × (split c s ≡ w ∷ ws)
unfolding split
split-nonempty c [] = ([], [], refl)
split-nonempty c (a ∷ s) =
    let (w, ws, e) = split-nonempty c s in
    elim (Bool-cases (eqb a c)) [
      | inl same ↦ ([], split c s, rw same refl)
      | inr other ↦ (a ∷ w, ws, rw (other, e) refl)
    ]

-- A text is split at each occurrence.
split-middle : (c : ℕ) (s t : Text) → split c (s ++ c ∷ t) ≡ split c s ++ split c t
unfolding split
split-middle c [] t = ground arith
split-middle c (a ∷ s) t =
    let (w, ws, e) = split-nonempty c s in
    elim (Bool-cases (eqb a c)) [
      | inl same ↦ rw same (ap (λ l. [] ∷ l) (split-middle c s t))
      | inr other ↦ rw (other, split-middle c s t, e) refl
    ]

join-cons_head :
    (c a : ℕ) (w : Text) (ws : List Text)
    → join (c ∷ []) (cons_head a (w ∷ ws)) ≡ a ∷ join (c ∷ []) (w ∷ ws)
unfolding join
join-cons_head c a w [] = refl
join-cons_head c a w (v ∷ ws) = refl

join-split : (c : ℕ) (s : Text) → join (c ∷ []) (split c s) ≡ s
unfolding split join
join-split c [] = refl
join-split c (a ∷ s) =
    let (w, ws, e) = split-nonempty c s in
    let rest : join (c ∷ []) (w ∷ ws) ≡ s = ap (join (c ∷ [])) (sym e) ∙ join-split c s in
    elim (Bool-cases (eqb a c)) [
      | inl same ↦
          let found : c ≡ a = ground arith in
          rw (same, e) (ap (λ l. c ∷ l) rest ∙ ap (λ k. k ∷ s) found)
      | inr other ↦ rw (other, e) (join-cons_head c a w ws ∙ ap (λ l. a ∷ l) rest)
    ]

reverse-nonempty :
    (w : Text) (ws : List Text) → (t : Text) × (ts : List Text) × (reverse (w ∷ ws) ≡ t ∷ ts)
reverse-nonempty w ws = nonempty (reverse ws) w (reverse-cons w ws)
  where
    nonempty :
        (xs : List Text) (w : Text)
        → reverse (w ∷ ws) ≡ xs ++ w ∷ []
        → (t : Text) × (ts : List Text) × (reverse (w ∷ ws) ≡ t ∷ ts)
    nonempty [] w e = (w, [], e)
    nonempty (x ∷ xs) w e = (x, xs ++ w ∷ [], e)

-- The tags and the version have no dash in them: they are what `parse_wheel_name` returns of a name that
-- they are joined to, whether or not the name has dashes.
pub parse_wheel_name-join :
    (name version python_tag abi_tag platform : Text)
    → AllLack 45 (version ∷ python_tag ∷ abi_tag ∷ platform ∷ [])
    → parse_wheel_name (join (codes "-") (name ∷ version ∷ python_tag ∷ abi_tag ∷ platform ∷ []))
      ≡ ok (name, version, python_tag, abi_tag, platform)
unfolding parse_wheel_name
parse_wheel_name-join name version python_tag abi_tag platform h =
    let tail = version ∷ python_tag ∷ abi_tag ∷ platform ∷ [] in
    let tokens : split 45 (join (45 ∷ []) (name ∷ tail)) ≡ split 45 name ++ tail =
      split-middle 45 name (join (45 ∷ []) tail)
      ∙ ap (λ l. split 45 name ++ l)
          (split-join 45 version (python_tag ∷ abi_tag ∷ platform ∷ []) h) in
    let (w, ws, e) = split-nonempty 45 name in
    let (t, ts, f) = reverse-nonempty w ws in
    let turned : reverse (split 45 (join (45 ∷ []) (name ∷ tail))) ≡ reverse tail ++ t ∷ ts =
      ap reverse tokens
      ∙ reverse-append (split 45 name) tail
      ∙ ap (λ l. reverse tail ++ l) (ap reverse e ∙ f) in
    let back : join (45 ∷ []) (reverse (t ∷ ts)) ≡ name =
      ap (join (45 ∷ [])) (ap reverse (sym f) ∙ reverse-reverse (w ∷ ws) ∙ sym e)
      ∙ join-split 45 name in
    ap (wheel_from (join (45 ∷ []) (name ∷ tail))) turned
    ∙ ap (λ n. ok (n, version, python_tag, abi_tag, platform)) back

elem-info_dirs :
    (s : Text) (namelist : List Text)
    → elem s (info_dirs namelist)
      ≡ (elem s (map top_dir namelist) && ends_with s (codes ".dist-info"))
unfolding info_dirs
elem-info_dirs s namelist = ground (
  arith,
  elem-filter (λ s. ends_with s (codes ".dist-info")) s (update (map top_dir namelist) []),
  elem-update s (map top_dir namelist) [],
  elem-nil s,
)

only_info_dir-inv :
    (lower repr : Text → Text) (name d : Text) (dirs : List Text)
    → only_info_dir lower repr name dirs ≡ ok d
    → (dirs ≡ d ∷ [])
      × (starts_with (canonicalize_name lower d) (canonicalize_name lower name) ≡ true)
only_info_dir-inv lower repr name d [] h = cc
only_info_dir-inv lower repr name d (a ∷ []) h =
    elim (Bool-cases (starts_with (canonicalize_name lower a) (canonicalize_name lower name))) [
      | inl starts ↦
          let e : ok a ≡ ok d = sym (rw starts refl) ∙ h in
          let same : a ≡ d = cc e in
          (
            ap (λ x. x ∷ []) same,
            ap (λ x. starts_with (canonicalize_name lower x) (canonicalize_name lower name))
                  (sym same)
                ∙ starts,
          )
      | inr other ↦ absurd (ground (arith, h))
    ]
only_info_dir-inv lower repr name d (a ∷ b ∷ dirs) h = cc

-- The directory that is returned is the first part of a path in the wheel; no other first part ends with
-- .dist-info, and its canonical name starts with that of the wheel.
pub wheel_dist_info_dir_lem :
    (lower repr : Text → Text) (namelist : List Text) (name d : Text)
    → wheel_dist_info_dir lower repr namelist name ≡ ok d
    → ((s : Text) → (elem s (map top_dir namelist) && ends_with s (codes ".dist-info")) ≡ (s == d))
      × (starts_with (canonicalize_name lower d) (canonicalize_name lower name) ≡ true)
unfolding wheel_dist_info_dir
wheel_dist_info_dir_lem lower repr namelist name d h =
    let (only, starts) = only_info_dir-inv lower repr name d (info_dirs namelist) h in
    (
      λ s.
          sym (elem-info_dirs s namelist)
          ∙ ap (elem s) only
          ∙ ground (arith, elem-cons s d [], elem-nil s),
      starts,
    )
