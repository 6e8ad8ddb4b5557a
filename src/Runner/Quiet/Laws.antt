-- ===== src/Runner/Quiet/Laws.antt =====
-- When a source is quiet.
use pyodide.Base.{
  Text, ◌≡◌, refl, ap, sym, ◌∙◌, ◌↔◌, true, false, List, [], ◌∷◌, ◌++◌, append_assoc, all,
  all-reverse, Result, ok, arith, inl, inr, Bool-cases,
}
use mathlib.Core.List.{reverse, reverse-cons, reverse-append, reverse-reverse}
use pyodide.Runner.Quiet.{Token, is_ignored, is_semicolon, quiet_tokens, should_quiet}

-- The tokens are some tokens, a semicolon, and tokens that are passed over.
abbrev pub EndsInSemicolon : List Token → Type 0
EndsInSemicolon tokens =
    (before : List Token) × (token : Token) × (after : List Token) × (tokens
      ≡ before ++ token ∷ after)
    × (is_semicolon token ≡ true)
    × (all (λ t. is_ignored t.token_type) after ≡ true)

semicolon_not_ignored : (t : Token) → is_semicolon t ≡ true → is_ignored t.token_type ≡ false
unfolding is_semicolon
semicolon_not_ignored t h = ground arith

quiet_tokens-found :
    (before : List Token) (token : Token) (after : List Token)
    → all (λ t. is_ignored t.token_type) before ≡ true
    → is_semicolon token ≡ true
    → quiet_tokens (before ++ token ∷ after) ≡ true
unfolding quiet_tokens all
quiet_tokens-found [] token after h k = ground (arith, semicolon_not_ignored token k)
quiet_tokens-found (t ∷ before) token after h k =
    ground (arith, quiet_tokens-found before token after)

quiet_tokens-inv :
    (tokens : List Token)
    → quiet_tokens tokens ≡ true
    → (before : List Token) × (token : Token) × (after : List Token) × (tokens
        ≡ before ++ token ∷ after)
      × (all (λ t. is_ignored t.token_type) before ≡ true)
      × (is_semicolon token ≡ true)
unfolding quiet_tokens all
quiet_tokens-inv [] h = cc
quiet_tokens-inv (t ∷ tokens) h = elim (Bool-cases (is_ignored t.token_type)) [
  | inl ignored ↦
      let (before, token, after, e, l, k) = quiet_tokens-inv tokens (ground arith) in
      (t ∷ before, token, after, ap (λ l. t ∷ l) e, ground arith, k)
  | inr read ↦ ([], t, tokens, refl, refl, ground arith)
]

-- If the source can be read as tokens, its result is suppressed exactly if its tokens end in a semicolon,
-- after which only line ends, comments and the end marker come.
pub should_quiet_lem :
    (generate_tokens : Text → Result (List Token)) (source : Text) (tokens : List Token)
    → generate_tokens source ≡ ok tokens
    → (should_quiet generate_tokens source ≡ ok true) ↔ EndsInSemicolon tokens
unfolding should_quiet
should_quiet_lem generate_tokens source tokens h = (
  λ q.
      let (before, token, after, e, l, k) = quiet_tokens-inv (reverse tokens) (ground arith) in
      (
        reverse after,
        token,
        reverse before,
        sym (reverse-reverse tokens)
            ∙ ap reverse e
            ∙ reverse-append before (token ∷ after)
            ∙ ap (λ l. l ++ reverse before) (reverse-cons token after)
            ∙ append_assoc (reverse after) (token ∷ []) (reverse before),
        k,
        all-reverse (λ t. is_ignored t.token_type) before ∙ l,
      ),
  λ (before, token, after, e, k, l).
      let turned : reverse tokens ≡ reverse after ++ token ∷ reverse before =
        ap reverse e
        ∙ reverse-append before (token ∷ after)
        ∙ ap (λ l. l ++ reverse before) (reverse-cons token after)
        ∙ append_assoc (reverse after) (token ∷ []) (reverse before) in
      let found =
        quiet_tokens-found (reverse after) token (reverse before)
          (all-reverse (λ t. is_ignored t.token_type) after ∙ l) k in
      rw (h, turned, found) refl,
)
