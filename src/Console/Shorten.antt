-- ===== src/Console/Shorten.antt =====
-- `shorten` and `repr_shorten`. The limit and the split are not negative.
pub mod Laws
use pyodide.Base.{
  ℕ, ◌-◌, ◌/◌, Text, codes, List, [], ◌∷◌, ◌++◌, Option, none, some, length, ltb, eqb,
  if◌then◌else◌, Result, ok, err, Exception,
}
use pyodide.Base.Strings.Methods.{slice_from, slice_to}

-- text[-n:], which is the whole text for n = 0
unfoldable pub slice_last : ℕ → Text → Text
slice_last n s = if eqb n 0 then s else slice_from (length s - n) s

abbrev pub min : ℕ → ℕ → ℕ
min a b = if ltb b a then b else a

abbrev pub split_or : Option ℕ → ℕ → ℕ
split_or none limit = limit / 2
split_or (some split) limit = split

unfoldable pub shorten : Text → ℕ → Option ℕ → Text → Result Text
unfolding slice_to slice_last
shorten text limit split separator =
    let n = min (split_or split limit) (length text / 2) in
    if ltb limit 2
    then err (Exception.value_error (codes "limit must be greater than or equal to 2."))
    else ok (
        if ltb limit (length text)
        then slice_to n text ++ (separator ++ slice_last n text)
        else text)

-- `text` is repr(value).
unfoldable pub repr_shorten : Text → ℕ → Option ℕ → Text → Result Text
unfolding shorten
repr_shorten text limit split separator =
    if ltb limit 4
    then err (Exception.value_error (codes "limit must be greater than or equal to 4."))
    else shorten text limit split separator
