-- ===== src/Runner/Quiet.antt =====
-- `should_quiet`, on the tokens that Python's `tokenize` makes of a source.
pub mod Laws
use pyodide.Base.{Text, codes, text_beq, Bool, true, false, ◌&&◌, List, [], ◌∷◌, Result, ok, ◌>>=◌}
use mathlib.Core.List.{reverse}

pub data TokenType : Type 0 where
  endmarker nl newline comment op other_token : TokenType

pub record Token : Type 0 where
  pub token_type : TokenType
  pub string : Text

-- A token that the loop passes over.
abbrev pub is_ignored : TokenType → Bool
is_ignored endmarker = true
is_ignored nl = true
is_ignored newline = true
is_ignored comment = true
is_ignored op = false
is_ignored other_token = false

abbrev pub is_op : TokenType → Bool
is_op op = true
is_op endmarker = false
is_op nl = false
is_op newline = false
is_op comment = false
is_op other_token = false

unfoldable pub is_semicolon : Token → Bool
unfolding codes text_beq
is_semicolon token = is_op token.token_type && text_beq token.string (codes ";")

unfoldable pub quiet_tokens : List Token → Bool
unfolding is_semicolon
quiet_tokens [] = false
quiet_tokens (token ∷ tokens) = elim (is_ignored token.token_type) [
  | true ↦ quiet_tokens tokens
  | false ↦ is_semicolon token
]

unfoldable pub should_quiet : (Text → Result (List Token)) → Text → Result Bool
unfolding quiet_tokens
should_quiet generate_tokens source =
    generate_tokens source >>= λ tokens. ok (quiet_tokens (reverse tokens))
