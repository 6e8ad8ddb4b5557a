-- ===== src/Console/Completion/Laws.antt =====
-- What is completed is the last word.
use pyodide.Base.{ℕ, ◌≡◌, Text, true, List, [], ◌∷◌, ◌++◌, ◌⊎◌, elem, nat_eq}

-- How the text before the last word ends.
abbrev pub EndsInBreak : List ℕ → Text → Type 0
EndsInBreak breaks before =
    (before ≡ []) ⊎ ((t : Text) × (c : ℕ) × (elem c breaks ≡ true) × (before ≡ t ++ c ∷ []))
