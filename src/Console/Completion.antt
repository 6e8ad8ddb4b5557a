-- ===== src/Console/Completion.antt =====
-- `complete`: the last word of the source, and what rlcompleter makes of it.
pub mod Laws
use pyodide.Base.{
  ℕ, Text, codes, Bool, List, [], ◌∷◌, if◌then◌else◌, ltb, elem, nat_eq, Result, ok, err, ◌>>=◌,
  Exception,
}
use pyodide.Base.Strings.Methods.{slice_from, after_last}

-- The largest of `source.rfind(c) + 1`, of the characters c.
unfoldable pub max_start : List ℕ → Text → ℕ
unfolding after_last
max_start [] source = 0
max_start (c ∷ breaks) source =
    let n = after_last c source in let m = max_start breaks source in if ltb n m then m else n

abbrev pub empty_max : Exception
empty_max = Exception.value_error (codes "max() arg is an empty sequence")

-- max(map(source.rfind, breaks)) + 1, where `max` raises if there are no characters.
unfoldable pub word_start : List ℕ → Text → Result ℕ
unfolding max_start
word_start [] source = err empty_max
word_start (c ∷ breaks) source = ok (max_start (c ∷ breaks) source)

-- All that is not alphanumeric, except the full stop.
unfoldable pub completer_word_break_characters : List ℕ
unfolding codes
completer_word_break_characters = codes " \t\n`~!@#$%^&*()-=+[{]}\\|;:'\",<>/?"

-- `attr_matches` and `global_matches` are the methods of rlcompleter's Completer.
unfoldable pub complete :
    (attr_matches global_matches : Text → List Text) → List ℕ → Text → Result (List Text × ℕ)
unfolding word_start elem
complete attr_matches global_matches breaks source = word_start breaks source >>= λ start.
    let word = slice_from start source in
    ok (if elem 46 word then attr_matches word else global_matches word, start)
