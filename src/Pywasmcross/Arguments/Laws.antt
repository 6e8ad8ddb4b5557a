-- ===== src/Pywasmcross/Arguments/Laws.antt =====
-- Laws of the argument handlers.
use pyodide.Base.{
  ℕ, Text, codes, ◌≡◌, refl, ap, ◌∙◌, ◌≢◌, ◌⊎◌, Ensures, Bool, true, false, List, [], ◌∷◌, ◌++◌,
  Option, none, some, elem, ◌==◌, text_eq, length, ltb, filter, all, all-filter, filter-eq_of_all,
  arith, inl, inr, Bool-cases, if◌then◌else◌, ok,
}
use pyodide.Base.Strings.Methods.{starts_with, split, join, replace}
use pyodide.Base.Strings.Laws.{
  AllLack, split-AllLack, AllLack-filter, split-join, starts_with-append, starts_with_prefix,
}
use pyodide.Pywasmcross.Types.{Surroundings}
use pyodide.Pywasmcross.Arguments.{
  replay_genargs_handle_dashl, replay_genargs_handle_dash_i, replay_genargs_handle_linker_opts,
  replay_genargs_handle_argument, keeps_link_opt, rest_of,
}

AllLack-rest_of : (c : ℕ) (ws : List Text) → AllLack c ws → AllLack c (rest_of ws)
AllLack-rest_of c [] h = tt
AllLack-rest_of c (w ∷ ws) h = h.1

-- The options of `arg` that the handler keeps.
abbrev pub kept_opts : Text → List Text
kept_opts arg = filter keeps_link_opt (rest_of (split b',' arg))

kept_opts-AllLack : (arg : Text) → AllLack b',' (codes "-Wl" ∷ kept_opts arg)
unfolding codes all
kept_opts-AllLack arg = (
  refl,
  AllLack-filter b',' keeps_link_opt (rest_of (split b',' arg))
      (AllLack-rest_of b',' (split b',' arg) (split-AllLack b',' arg)),
)

-- What the handler returns, by the options that it keeps.
abbrev pub rejoined : List Text → Option Text
rejoined [] = none
rejoined (w ∷ ws) = some (join (b',' ∷ []) (codes "-Wl" ∷ w ∷ ws))

pub handle_linker_opts-eq :
    (arg : Text)
    → starts_with arg (codes "-Wl") ≡ true
    → replay_genargs_handle_linker_opts arg ≡ ok (rejoined (kept_opts arg))
unfolding replay_genargs_handle_linker_opts
handle_linker_opts-eq arg h = rw h (by_length (kept_opts arg))
  where
    by_length :
        (ws : List Text)
        → (if ltb 1 (length (codes "-Wl" ∷ ws))
            then ok (some (join (b',' ∷ []) (codes "-Wl" ∷ ws)))
            else ok none)
          ≡ ok (rejoined ws)
    by_length [] = refl
    by_length (w ∷ ws) = ground arith

pub split-rejoined :
    (arg : Text) {r : Text}
    → rejoined (kept_opts arg) ≡ some r
    → split b',' r ≡ codes "-Wl" ∷ kept_opts arg
split-rejoined arg {r} h = go (kept_opts arg) (kept_opts-AllLack arg) h
  where
    go :
        (ws : List Text)
        → AllLack b',' (codes "-Wl" ∷ ws)
        → rejoined ws ≡ some r
        → split b',' r ≡ codes "-Wl" ∷ ws
    go [] l e = cc
    go (w ∷ ws) l e = ground (arith, split-join b',' (codes "-Wl") (w ∷ ws) l)

starts-rejoined :
    (ws : List Text) {r : Text} → rejoined ws ≡ some r → starts_with r (codes "-Wl") ≡ true
starts-rejoined [] e = cc
starts-rejoined (w ∷ ws) {r} e =
    let found = starts_with-append (codes "-Wl") (b',' ∷ join (b',' ∷ []) (w ∷ ws)) in
    unfold join in ground (arith, found)

filter_idem : (p : Text → Bool) (ws : List Text) → filter p (filter p ws) ≡ filter p ws
filter_idem p ws = filter-eq_of_all p (filter p ws) (all-filter p ws)

refused :
    (arg : Text) {r : Text}
    → starts_with arg (codes "-Wl") ≡ false
    → replay_genargs_handle_linker_opts arg ≢ ok (some r)
unfolding replay_genargs_handle_linker_opts
refused arg h e = ground arith

-- A `-Wl` argument that the handler returns is a fixed point: handled again it is returned as it is,
-- and its options are those options of the original, in order, that are kept.
pub handle_linker_opts_stable :
    (arg r : Text)
    → replay_genargs_handle_linker_opts arg ≡ ok (some r)
    → (split b',' r ≡ codes "-Wl" ∷ filter keeps_link_opt (rest_of (split b',' arg)))
      × (replay_genargs_handle_linker_opts r ≡ ok (some r))
handle_linker_opts_stable arg r h = elim (Bool-cases (starts_with arg (codes "-Wl"))) [
  | inl wl ↦
      let e : rejoined (kept_opts arg) ≡ some r = cc (h, handle_linker_opts-eq arg wl) in
      let s = split-rejoined arg e in
      (
        s,
        handle_linker_opts-eq r (starts-rejoined (kept_opts arg) e)
            ∙ ap (λ ws. ok (rejoined (filter keeps_link_opt (rest_of ws)))) s
            ∙ ap (λ ws. ok (rejoined ws)) (filter_idem keeps_link_opt (rest_of (split b',' arg)))
            ∙ ap ok e,
      )
  | inr other ↦ absurd (refused arg other h)
]

-- The cases of what a handler returns: the argument is deleted, or replaced by one that is no `-l`
-- argument, or is a `-l` argument that was not seen before and is kept.
abbrev pub Handled : Text → List Text → Option Text × List Text → Type 0
Handled arg used (r, used') =
    (r ≡ none) × (used' ≡ used)
    ⊎ (((v : Text) × (r ≡ some v) × (starts_with v (codes "-l") ≡ false) × (used' ≡ used))
        ⊎ ((r ≡ some arg)
            × (used' ≡ arg ∷ used)
            × (elem arg used ≡ false)
            × ((arg == codes "-lffi") ≡ false)
            × ((arg == codes "-lgfortran") ≡ false)))

pub dashl-Handled :
    (arg : Text) (used : List Text)
    → starts_with arg (codes "-l") ≡ true
    → Ensures (Handled arg used) (replay_genargs_handle_dashl arg used)
unfolding replay_genargs_handle_dashl
dashl-Handled arg used h = rw h (ground arith)

-- The new argument is none or no `-l` argument.
abbrev pub NoLib : Option Text → Type 0
NoLib none = Unit
NoLib (some v) = starts_with v (codes "-l") ≡ false

starts_I_not_l : (s : Text) → starts_with s (codes "-I") ≡ true → starts_with s (codes "-l") ≡ false
unfolding starts_with codes
starts_I_not_l [] h = refl
starts_I_not_l (a ∷ []) h = ground arith
starts_I_not_l (a ∷ b ∷ s) h = ground arith

replace-starts_with :
    (arg p q : Text)
    → starts_with arg (codes "-I") ≡ true
    → starts_with (replace (codes "-I" ++ p) (codes "-I" ++ q) arg) (codes "-I") ≡ true
unfolding replace starts_with codes
replace-starts_with [] p q h = cc
replace-starts_with (a ∷ []) p q h = ground arith
replace-starts_with (a ∷ b ∷ s) p q h = ground arith

pub dash_i-NoLib :
    (env : Surroundings) (arg target : Text)
    → starts_with arg (codes "-I") ≡ true
    → Ensures NoLib (replay_genargs_handle_dash_i env arg target)
unfolding replay_genargs_handle_dash_i
dash_i-NoLib env arg target h = rw h (
    ground (
      arith,
      starts_I_not_l arg h,
      starts_I_not_l _ (replace-starts_with arg env.sys_prefix target h),
      starts_I_not_l _ (replace-starts_with arg env.sys_base_prefix target h),
    ))

rejoined-NoLib : (ws : List Text) → NoLib (rejoined ws)
unfolding starts_with codes join
rejoined-NoLib [] = tt
rejoined-NoLib (w ∷ ws) = refl

pub linker_opts-NoLib :
    (arg : Text)
    → starts_with arg (codes "-Wl") ≡ true
    → Ensures NoLib (replay_genargs_handle_linker_opts arg)
linker_opts-NoLib arg h = rw (handle_linker_opts-eq arg h) (rejoined-NoLib (kept_opts arg))

pub argument-NoLib :
    (arg : Text)
    → starts_with arg (codes "-I") ≡ false
    → starts_with arg (codes "-l") ≡ false
    → starts_with arg (codes "-Wl") ≡ false
    → Ensures NoLib (replay_genargs_handle_argument arg)
unfolding replay_genargs_handle_argument
argument-NoLib arg i l w = rw (i, l, no_wl) (ground arith)
  where
    no_wl : starts_with arg (codes "-Wl,") ≡ false
    no_wl = elim (Bool-cases (starts_with arg (codes "-Wl,"))) [
      | inl yes_wl ↦
          let longer : starts_with arg (codes "-Wl") ≡ true =
            unfold codes in starts_with_prefix arg (45 ∷ 87 ∷ 108 ∷ []) (44 ∷ []) yes_wl in
          cc
      | inr none_wl ↦ none_wl
    ]
