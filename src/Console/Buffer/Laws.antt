-- ===== src/Console/Buffer/Laws.antt =====
-- No line is lost, and none runs twice.
use pyodide.Base.{Text, ◌≡◌, Bool, true, false, List, [], ◌∷◌, ◌++◌, map, Exception}
use pyodide.Base.Strings.Methods.{join}
use pyodide.Console.Buffer.{Compiled, Console}

-- Lines that stood in the buffer together when it was reset, and whether their source ran.
abbrev pub Command : Type 0
Command = List Text × Bool

unfoldable pub lines_of : List Command → List Text
lines_of [] = []
lines_of ((lines, ran) ∷ commands) = lines ++ lines_of commands

unfoldable pub sources_of : List Command → List Text
sources_of [] = []
sources_of ((lines, true) ∷ commands) = join (10 ∷ []) lines ∷ sources_of commands
sources_of ((lines, false) ∷ commands) = sources_of commands

module _ {K C : Type 0} (format_syntax : Exception → Text)
    (compile : K → Text → Compiled C × K) where
  -- What was pushed is the commands and what the buffer holds; those that ran are started, in order.
  abbrev pub IsSession : List Text → List Command → Console K C → Type 0
  IsSession pushed commands s =
      (pushed ≡ lines_of commands ++ s.buffer) × (map (λ p. p.0) s.started ≡ sources_of commands)
