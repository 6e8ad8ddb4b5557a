-- ===== src/Base/Strings/Methods.antt =====
-- The methods of `str`: startswith, endswith, split, join, removeprefix, strip, `in`, replace.
use Prim.Native.Nat.{ℕ, zero, suc, ◌-◌}
use mathlib.Core.Bool.{Bool, true, false, ◌&&◌, ◌||◌}
use mathlib.Core.List.{List, [], ◌∷◌, ◌++◌, reverse}
use pyodide.Base.Tests.{eqb, if◌then◌else◌}
use pyodide.Base.Lists.{length, any}
use pyodide.Base.Strings.{Text}

-- s.startswith(p)
unfoldable pub starts_with : Text → Text → Bool
starts_with s [] = true
starts_with [] (b ∷ p) = false
starts_with (a ∷ s) (b ∷ p) = eqb a b && starts_with s p

-- s.endswith(p)
unfoldable pub ends_with : Text → Text → Bool
unfolding starts_with
ends_with s p = starts_with (reverse s) (reverse p)

-- s.startswith((p, q, ...))
unfoldable pub starts_with_any : Text → List Text → Bool
unfolding starts_with any
starts_with_any s ps = any (starts_with s) ps

unfoldable pub ends_with_any : Text → List Text → Bool
unfolding ends_with any
ends_with_any s ps = any (ends_with s) ps

-- s[n:]
unfoldable pub slice_from : ℕ → Text → Text
slice_from zero s = s
slice_from (suc n) [] = []
slice_from (suc n) (a ∷ s) = slice_from n s

-- s[:n]
unfoldable pub slice_to : ℕ → Text → Text
slice_to zero s = []
slice_to (suc n) [] = []
slice_to (suc n) (a ∷ s) = a ∷ slice_to n s

-- s.rfind(c) + 1
unfoldable pub after_last : ℕ → Text → ℕ
after_last c [] = 0
after_last c (a ∷ s) =
    let n = after_last c s in if eqb n 0 then (if eqb a c then 1 else 0) else suc n

unfoldable pub remove_prefix : Text → Text → Text
unfolding starts_with slice_from
remove_prefix s p = if starts_with s p then slice_from (length p) s else s

-- `sub in s`
unfoldable pub has_text : Text → Text → Bool
unfolding starts_with
has_text sub [] = starts_with [] sub
has_text sub (a ∷ s) = starts_with (a ∷ s) sub || has_text sub s

abbrev pub cons_head : ℕ → List Text → List Text
cons_head a [] = (a ∷ []) ∷ []
cons_head a (w ∷ ws) = (a ∷ w) ∷ ws

-- s.split(c), for a separator of one character
unfoldable pub split : ℕ → Text → List Text
split c [] = [] ∷ []
split c (a ∷ s) = let rest = split c s in if eqb a c then [] ∷ rest else cons_head a rest

-- s.split(c)[0]
abbrev pub first_part : List Text → Text
first_part [] = []
first_part (part ∷ parts) = part

-- c.join(ws)
unfoldable pub join : Text → List Text → Text
join c [] = []
join c (w ∷ []) = w
join c (w ∷ v ∷ vs) = w ++ (c ++ join c (v ∷ vs))

-- `skip` characters belong to the occurrence just replaced.
unfoldable pub replace_from : Text → Text → ℕ → Text → Text
unfolding starts_with
replace_from old new skip [] = []
replace_from old new (suc skip) (a ∷ s) = replace_from old new skip s
replace_from old new zero (a ∷ s) =
    let found = new ++ replace_from old new (length old - 1) s in
    let other = a ∷ replace_from old new zero s in if starts_with (a ∷ s) old then found else other

-- s.replace(old, new), for `old` not empty
unfoldable pub replace : Text → Text → Text → Text
unfolding replace_from
replace old new s = replace_from old new 0 s

-- The whitespace and the decimal digits of Unicode are Python's: parameters.
unfoldable pub strip_start : (ℕ → Bool) → Text → Text
strip_start space [] = []
strip_start space (a ∷ s) = if space a then strip_start space s else a ∷ s

unfoldable pub strip : (ℕ → Bool) → Text → Text
unfolding strip_start
strip space s = reverse (strip_start space (reverse (strip_start space s)))

abbrev pub flush : Text → List Text → List Text
flush [] ws = ws
flush (a ∷ w) ws = reverse (a ∷ w) ∷ ws

-- s.split(): `w` is the word being read, reversed.
unfoldable pub words_from : (ℕ → Bool) → Text → Text → List Text
words_from space w [] = flush w []
words_from space w (a ∷ s) =
    let ended = flush w (words_from space [] s) in
    let longer = words_from space (a ∷ w) s in if space a then ended else longer

unfoldable pub words : (ℕ → Bool) → Text → List Text
unfolding words_from
words space s = words_from space [] s
