-- ===== src/Pywasmcross/Command/Loop.antt =====
-- The loop over the arguments in `handle_command_generate_args`.
use pyodide.Base.{
  ◌≤◌, Text, codes, ◌≡◌, refl, ap, sym, append-nil, ◌⊎◌, inl, inr, true, false, List, [], ◌∷◌, ◌++◌,
  Option, none, some, elem, count, count-append, ◌==◌, text_eq, eq_of_beq, beq_sym, subst,
  if◌then◌else◌, arith, Bool-cases, Result, ok, err, Ensures, Ensures-bind, Ensures-ok, ◌>>=◌,
}
use pyodide.Base.Strings.Methods.{starts_with}
use pyodide.Pywasmcross.Types.{Surroundings}
use pyodide.Pywasmcross.Arguments.Laws.{
  Handled, NoLib, dashl-Handled, dash_i-NoLib, linker_opts-NoLib, argument-NoLib,
}
use pyodide.Pywasmcross.Command.{
  get_last?, drop_last, append_result, Loop, handle_arg, compiler_compat, adjust_after, adjust_arg,
  adjust_args,
}

NoLib-Handled :
    (arg : Text) (used : List Text) (m : Result (Option Text))
    → Ensures NoLib m
    → Ensures (Handled arg used) (m >>= λ r. ok (r, used))
NoLib-Handled arg used (ok none) h = inl (refl, refl)
NoLib-Handled arg used (ok (some v)) h = inr (inl (v, refl, h, refl))
NoLib-Handled arg used (err x) h = elim h [ ]

pub handle_arg-Handled :
    (env : Surroundings) (target arg : Text) (used : List Text)
    → Ensures (Handled arg used) (handle_arg env target arg used)
unfolding handle_arg
handle_arg-Handled env target arg used = elim (Bool-cases (starts_with arg (codes "-l"))) [
  | inl l ↦ rw l (dashl-Handled arg used l)
  | inr not_l ↦ elim (Bool-cases (starts_with arg (codes "-I"))) [
    | inl i ↦ rw not_l (rw i (NoLib-Handled arg used _ (dash_i-NoLib env arg target i)))
    | inr not_i ↦ elim (Bool-cases (starts_with arg (codes "-Wl"))) [
      | inl w ↦ rw (not_l, not_i, w) (NoLib-Handled arg used _ (linker_opts-NoLib arg w))
      | inr not_w ↦
          rw (not_l, not_i, not_w) (NoLib-Handled arg used _ (argument-NoLib arg not_i not_l not_w))
    ]
  ]
]

-- The compiler stays the first word, and a `-l` argument stands in the new command line once at most,
-- and only if it is in `used_libs`.
pub record IsDeduped (compiler : Text) (s : Loop) : Type 0 where
  pub tail : List Text
  pub head_kept : s.0 ≡ compiler ∷ tail
  pub once :
      (a : Text) → starts_with a (codes "-l") ≡ true → count a s.0 ≤ (if elem a s.1 then 1 else 0)
  pub no_ffi : count (codes "-lffi") s.0 ≡ 0
  pub no_gfortran : count (codes "-lgfortran") s.0 ≡ 0

-- An argument after the compiler is appended by `append_result`.
abbrev tail_result : Option Text → List Text
tail_result none = []
tail_result (some []) = []
tail_result (some (c ∷ r)) = (c ∷ r) ∷ []

append_result-eq : (ws : List Text) (r : Option Text) → append_result ws r ≡ ws ++ tail_result r
unfolding append_result
append_result-eq ws none = sym (append-nil ws)
append_result-eq ws (some []) = sym (append-nil ws)
append_result-eq ws (some (c ∷ r)) = refl

count-drop_last : (a : Text) (ws : List Text) → count a (drop_last ws) ≤ count a ws
unfolding count drop_last
count-drop_last a [] = omega arith
count-drop_last a (w ∷ []) = omega arith
count-drop_last a (w ∷ v ∷ vs) = omega (arith, count-drop_last a (v ∷ vs))

drop_last-IsDeduped :
    (compiler t : Text) (ts used : List Text)
    → IsDeduped compiler (compiler ∷ t ∷ ts, used)
    → IsDeduped compiler (drop_last (compiler ∷ t ∷ ts), used)
drop_last-IsDeduped compiler t ts used d = record {
  tail = drop_last (t ∷ ts);
  head_kept = unfold drop_last in refl;
  once = λ a l. omega (arith, count-drop_last a (compiler ∷ t ∷ ts), d.once a l);
  no_ffi = omega (arith, count-drop_last (codes "-lffi") (compiler ∷ t ∷ ts), d.no_ffi);
  no_gfortran =
      omega (arith, count-drop_last (codes "-lgfortran") (compiler ∷ t ∷ ts), d.no_gfortran);
}

-- How often `a` stands in what a handled argument adds.
count-tail_result :
    (a arg : Text) (used : List Text) (r : Option Text × List Text)
    → starts_with a (codes "-l") ≡ true
    → Handled arg used r
    → (count a (tail_result r.0) ≡ 0) × (r.1 ≡ used)
      ⊎ ((count a (tail_result r.0) ≤ (if a == arg then 1 else 0))
          × (r.1 ≡ arg ∷ used)
          × (elem arg used ≡ false)
          × ((arg == codes "-lffi") ≡ false)
          × ((arg == codes "-lgfortran") ≡ false))
unfolding count
count-tail_result a arg used (none, used') l h = ground arith
count-tail_result a arg used (some [], used') l h = ground arith
count-tail_result a arg used (some (c ∷ v), used') l h = ground (arith, eq_of_beq a (c ∷ v))

starts_ffi : starts_with (codes "-lffi") (codes "-l") ≡ true
unfolding starts_with codes
starts_ffi = refl

starts_gfortran : starts_with (codes "-lgfortran") (codes "-l") ≡ true
unfolding starts_with codes
starts_gfortran = refl

append-IsDeduped :
    (compiler arg : Text) (s : Loop) (r : Option Text × List Text)
    → IsDeduped compiler s
    → Handled arg s.1 r
    → IsDeduped compiler (append_result s.0 r.0, r.1)
append-IsDeduped compiler arg s r d h = rw append_result-eq (record {
  tail = d.tail ++ tail_result r.0;
  head_kept = ap (λ ws. ws ++ tail_result r.0) d.head_kept;
  once = λ a l. once_after a l;
  no_ffi = ffi_after;
  no_gfortran = gfortran_after;
})
  where
    once_after :
        (a : Text)
        → starts_with a (codes "-l") ≡ true
        → count a (s.0 ++ tail_result r.0) ≤ (if elem a r.1 then 1 else 0)
    once_after a l =
        unfold elem in
        ground (
          arith,
          count-append a s.0 (tail_result r.0),
          d.once a l,
          count-tail_result a arg s.1 r l h,
          eq_of_beq a arg,
        )

    ffi_after : count (codes "-lffi") (s.0 ++ tail_result r.0) ≡ 0
    ffi_after = ground (
      arith,
      count-append (codes "-lffi") s.0 (tail_result r.0),
      d.no_ffi,
      count-tail_result (codes "-lffi") arg s.1 r starts_ffi h,
      beq_sym arg (codes "-lffi"),
    )

    gfortran_after : count (codes "-lgfortran") (s.0 ++ tail_result r.0) ≡ 0
    gfortran_after = ground (
      arith,
      count-append (codes "-lgfortran") s.0 (tail_result r.0),
      d.no_gfortran,
      count-tail_result (codes "-lgfortran") arg s.1 r starts_gfortran h,
      beq_sym arg (codes "-lgfortran"),
    )

get_last?-some : (t : Text) (ts : List Text) → (last : Text) × (get_last? (t ∷ ts) ≡ some last)
unfolding get_last?
get_last?-some t [] = (t, refl)
get_last?-some t (u ∷ us) = get_last?-some u us

module _ (env : Surroundings) (target compiler : Text)
    (no_search_path : starts_with compiler (codes "-B") ≡ false) where
  handled_round :
      (arg : Text) (s : Loop)
      → IsDeduped compiler s
      → Ensures
          (IsDeduped compiler)
          (do (result, used) ← handle_arg env target arg s.1; ok (append_result s.0 result, used))
  handled_round arg s d =
      Ensures-bind (Handled arg s.1) (IsDeduped compiler) (handle_arg env target arg s.1)
        (λ r. ok (append_result s.0 r.0, r.1)) (handle_arg-Handled env target arg s.1)
        (λ r h. append-IsDeduped compiler arg s r d h)

  after-IsDeduped :
      (last arg t : Text) (ts used : List Text)
      → IsDeduped compiler (compiler ∷ t ∷ ts, used)
      → Ensures
          (IsDeduped compiler)
          (adjust_after env target (some last) arg (compiler ∷ t ∷ ts, used))
  unfolding adjust_after
  after-IsDeduped last arg t ts used d = elim (Bool-cases (compiler_compat env target last arg)) [
    | inl compat ↦ rw compat (drop_last-IsDeduped compiler t ts used d)
    | inr other ↦ rw other (handled_round arg (compiler ∷ t ∷ ts, used) d)
  ]

  round-IsDeduped :
      (arg : Text) (tail used : List Text)
      → IsDeduped compiler (compiler ∷ tail, used)
      → Ensures (IsDeduped compiler) (adjust_arg env target arg (compiler ∷ tail, used))
  unfolding adjust_arg
  round-IsDeduped arg [] used d =
      unfold adjust_after in rw no_search_path (handled_round arg (compiler ∷ [], used) d)
  round-IsDeduped arg (t ∷ ts) used d =
      let (last, e) = get_last?-some t ts in
      subst
        (λ o.
          Ensures (IsDeduped compiler) (adjust_after env target o arg (compiler ∷ t ∷ ts, used)))
        (sym e) (after-IsDeduped last arg t ts used d)

  adjust_arg-IsDeduped :
      (arg : Text) (s : Loop)
      → IsDeduped compiler s
      → Ensures (IsDeduped compiler) (adjust_arg env target arg s)
  adjust_arg-IsDeduped arg (new_args, used) d =
      let e = d.head_kept in
      subst (λ ws. Ensures (IsDeduped compiler) (adjust_arg env target arg (ws, used))) (sym e)
        (round-IsDeduped arg d.tail used (subst (λ ws. IsDeduped compiler (ws, used)) e d))

  adjust_args-IsDeduped :
      (args : List Text) (s : Loop)
      → IsDeduped compiler s
      → Ensures (IsDeduped compiler) (adjust_args env target args s)
  unfolding adjust_args
  adjust_args-IsDeduped [] s d = d
  adjust_args-IsDeduped (arg ∷ args) s d =
      Ensures-bind (IsDeduped compiler) (IsDeduped compiler) (adjust_arg env target arg s)
        (adjust_args env target args) (adjust_arg-IsDeduped arg s d)
        (λ s' d'. adjust_args-IsDeduped args s' d')

start-IsDeduped :
    (compiler : Text)
    → starts_with compiler (codes "-l") ≡ false
    → IsDeduped compiler (compiler ∷ [], [])
unfolding count elem
start-IsDeduped compiler l = record {
  tail = [];
  head_kept = refl;
  once = λ a h. ground (arith, eq_of_beq a compiler);
  no_ffi = ground (arith, eq_of_beq (codes "-lffi") compiler, starts_ffi);
  no_gfortran = ground (arith, eq_of_beq (codes "-lgfortran") compiler, starts_gfortran);
}

-- Whatever the arguments, the loop returns: no assertion of a handler fails and `new_args` is never
-- empty. The compiler stays the first word of the new command line, no `-l` argument stands in it
-- twice, and neither `-lffi` nor `-lgfortran` stands in it. The compiler is a word that starts
-- neither with `-B` nor with `-l`.
pub adjust_args_total :
    (env : Surroundings) (target compiler : Text) (args : List Text)
    → starts_with compiler (codes "-B") ≡ false
    → starts_with compiler (codes "-l") ≡ false
    → (s : Loop) × (adjust_args env target args (compiler ∷ [], []) ≡ ok s)
      × ((tail : List Text) × (s.0 ≡ compiler ∷ tail))
      × ((a : Text) → starts_with a (codes "-l") ≡ true → count a s.0 ≤ 1)
      × (count (codes "-lffi") s.0 ≡ 0)
      × (count (codes "-lgfortran") s.0 ≡ 0)
adjust_args_total env target compiler args b l =
    let (s, e, d) =
      Ensures-ok (IsDeduped compiler) (adjust_args env target args (compiler ∷ [], [])) (
        adjust_args-IsDeduped env target compiler b args (compiler ∷ [], [])
          (start-IsDeduped compiler l)) in
    (s, e, (d.tail, d.head_kept), λ a h. at_most_one a s (d.once a h), d.no_ffi, d.no_gfortran)
  where
    at_most_one :
        (a : Text) (s : Loop) → count a s.0 ≤ (if elem a s.1 then 1 else 0) → count a s.0 ≤ 1
    at_most_one a s h = ground arith
