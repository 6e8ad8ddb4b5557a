-- ===== src/Base/Strings/Laws.antt =====
-- Laws of `split`, `join`, `startswith` and `replace`.
use Prim.Native.Nat.{ℕ}
use mathlib.Core.Path.{◌≡◌, refl, ap, ◌∙◌}
use mathlib.Core.Bool.{Bool, true, false, not}
use mathlib.Core.List.{List, [], ◌∷◌, ◌++◌}
use mathlib.Core.Logic.{inl, inr}
use native.Mathlib.Omega.{arith}
use pyodide.Base.Tests.{eqb, Bool-cases}
use pyodide.Base.Lists.{all, filter}
use pyodide.Base.Strings.{Text}
use pyodide.Base.Strings.Methods.{starts_with, split, join, cons_head}

-- The character does not occur.
abbrev pub Lacks : ℕ → Text → Type 0
Lacks c s = all (λ a. not (eqb a c)) s ≡ true

abbrev pub AllLack : ℕ → List Text → Type 0
AllLack c [] = Unit
AllLack c (w ∷ ws) = Lacks c w × AllLack c ws

AllLack-cons_head :
    (c a : ℕ) (ws : List Text) → eqb a c ≡ false → AllLack c ws → AllLack c (cons_head a ws)
unfolding all
AllLack-cons_head c a [] h l = (ground arith, tt)
AllLack-cons_head c a (w ∷ ws) h l = (ground arith, l.1)

pub split-AllLack : (c : ℕ) (s : Text) → AllLack c (split c s)
unfolding split all
split-AllLack c [] = (refl, tt)
split-AllLack c (a ∷ s) = elim (Bool-cases (eqb a c)) [
  | inl same ↦ rw same (refl, split-AllLack c s)
  | inr other ↦ rw other (AllLack-cons_head c a (split c s) other (split-AllLack c s))
]

pub AllLack-filter :
    (c : ℕ) (p : Text → Bool) (ws : List Text) → AllLack c ws → AllLack c (filter p ws)
unfolding filter
AllLack-filter c p [] h = tt
AllLack-filter c p (w ∷ ws) h = elim (Bool-cases (p w)) [
  | inl kept ↦ rw kept (h.0, AllLack-filter c p ws h.1)
  | inr dropped ↦ rw dropped (AllLack-filter c p ws h.1)
]

pub split-lacking : (c : ℕ) (w : Text) → Lacks c w → split c w ≡ w ∷ []
unfolding split all
split-lacking c [] h = refl
split-lacking c (a ∷ w) h = ground (arith, split-lacking c w)

pub split-append : (c : ℕ) (w s : Text) → Lacks c w → split c (w ++ c ∷ s) ≡ w ∷ split c s
unfolding split all
split-append c [] s h = ground arith
split-append c (a ∷ w) s h = ground (arith, split-append c w s)

pub split-join :
    (c : ℕ) (w : Text) (ws : List Text)
    → AllLack c (w ∷ ws)
    → split c (join (c ∷ []) (w ∷ ws)) ≡ w ∷ ws
unfolding join
split-join c w [] h = split-lacking c w h.0
split-join c w (v ∷ vs) h =
    split-append c w (join (c ∷ []) (v ∷ vs)) h.0 ∙ ap (λ l. w ∷ l) (split-join c v vs h.1)

pub starts_with-append : (p s : Text) → starts_with (p ++ s) p ≡ true
unfolding starts_with
starts_with-append [] s = refl
starts_with-append (a ∷ p) s = ground (arith, starts_with-append p s)

-- A text that starts with a longer prefix starts with the shorter one.
pub starts_with_prefix : (s p q : Text) → starts_with s (p ++ q) ≡ true → starts_with s p ≡ true
unfolding starts_with
starts_with_prefix s [] q h = refl
starts_with_prefix [] (b ∷ p) q h = h
starts_with_prefix (a ∷ s) (b ∷ p) q h = ground (arith, starts_with_prefix s p q)
