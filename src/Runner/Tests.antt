-- ===== src/Runner/Tests.antt =====
-- The theorems on running code at concrete inputs.
use pyodide.Base.{
  ℕ, suc, Text, codes, text_eq, ◌≡◌, ◌↔◌, refl, ◌⊎◌, inl, true, false, List, [], ◌∷◌, any, Option,
  none, some, elem, nat_eq, ok,
}
use pyodide.Runner.Quiet.{Token, op, other_token, endmarker, should_quiet, quiet_tokens}
use pyodide.Runner.Quiet.Laws.{EndsInSemicolon, should_quiet_lem}
use pyodide.Runner.Transform.{Statement, Expression, load, compound, name, assign, other}
use pyodide.Runner.Interpreter.{Interpreter, Raised}
use pyodide.Runner.Code.{Compiler, Options, last_expr_or_assign, effective_mode, parse, transform}
use pyodide.Runner.Run.{World, scopes, eval_code}
use pyodide.Runner.Run.Laws.{evaluated, eval_code_lem}
use pyodide.Base.Strings.Order.{Increasing}
use pyodide.Runner.Imports.{Node, import_node, import_from, find_imports}
use pyodide.Runner.Imports.Laws.{names_stem, find_imports_lem}

abbrev tokens : List Token
tokens =
    record { token_type = other_token; string = codes "x" }
    ∷ record { token_type = op; string = codes ";" }
    ∷ record { token_type = endmarker; string = [] }
    ∷ []

should_quiet_lem_example :
    (should_quiet (λ source. ok tokens) (codes "x;") ≡ ok true) ↔ EndsInSemicolon tokens
should_quiet_lem_example = should_quiet_lem (λ source. ok tokens) (codes "x;") tokens refl

-- An interpreter of one variable, which an assignment sets to a number.
abbrev counter : Interpreter ℕ ℕ ℕ (ℕ × ℕ) ℕ
counter = record { evaluate = value_of; execute = λ st r s. (none, suc s) }
  where
    value_of : Expression ℕ → ℕ × ℕ → ℕ → (ℕ ⊎ Raised ℕ) × ℕ
    value_of (load id) r s = (inl s, s)
    value_of (compound n) r s = (inl n, s)

abbrev body : List (Statement ℕ ℕ)
body = other 4 ∷ assign (name (codes "x")) [] (compound 2) ∷ []

abbrev compiler : Compiler ℕ ℕ
compiler = record {
  dedent = λ source. source;
  generate_tokens = λ source. ok [];
  compile_source = λ source filename mode flags. ok body;
  compile_module = λ body filename mode flags. ok flags;
}

abbrev options : Options
options = record {
  return_mode = last_expr_or_assign;
  quiet_trailing_semicolon = true;
  mode = codes "exec";
  filename = codes "<exec>";
  flags = [];
}

abbrev world : World ℕ
world = record { linecache = []; interpreter = 0 }

eval_code_lem_example :
    eval_code counter 0 compiler (codes "x = 2") none (some 1) options world
    ≡ evaluated compiler counter 0
        (effective_mode last_expr_or_assign false)
        body
        (codes "<exec>")
        (codes "x = 2")
        (scopes counter 0 none (some 1))
        world
unfolding codes elem parse transform should_quiet quiet_tokens
eval_code_lem_example =
    eval_code_lem compiler counter 0 (codes "x = 2") none (some 1) options world body false []
      (refl, refl, refl) refl

abbrev nodes : List Node
nodes = import_node (codes "scipy.stats" ∷ []) ∷ import_from (some (codes "numpy")) ∷ []

find_imports_lem_example :
    let parse_nodes : Text → Option (List Node) = λ source. some nodes in
    (parse_nodes (codes "import scipy.stats") ≡ none
      → find_imports (λ s. s) parse_nodes (codes "import scipy.stats") ≡ [])
    × ((found : List Node)
        → parse_nodes (codes "import scipy.stats") ≡ some found
        → Increasing (find_imports (λ s. s) parse_nodes (codes "import scipy.stats"))
          × ((stem : Text)
              → elem stem (find_imports (λ s. s) parse_nodes (codes "import scipy.stats"))
                ≡ any (names_stem stem) found))
find_imports_lem_example =
    find_imports_lem (λ s. s) (λ source. some nodes) (codes "import scipy.stats")
