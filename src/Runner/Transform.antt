-- ===== src/Runner/Transform.antt =====
-- The transformations of a parsed source. An expression is a name that is read, or one of the type `X`; a
-- statement that the code does not look into is one of the type `O`.
pub mod Laws
use pyodide.Base.{Text, Option, List, [], ◌∷◌, ◌++◌}

pub data Expression (X : Type 0) : Type 0 where
  load : Text → Expression X
  compound : X → Expression X

pub data Target (X : Type 0) : Type 0 where
  name : Text → Target X
  other_target : X → Target X

-- `assign` has its first target and the others; `raise_result` is the statement of `_raise_template_ast`
-- with its x replaced.
pub data Statement (X O : Type 0) : Type 0 where
  expression raise_result : Expression X → Statement X O
  assign : Target X → List (Target X) → Expression X → Statement X O
  aug_assign : Target X → O → Statement X O
  ann_assign : Target X → O → Statement X O
  other : O → Statement X O

module _ {X O : Type 0} where
  -- The expression that is put after the last statement, if there is one.
  abbrev pub target_expression : Target X → List (Statement X O)
  target_expression (name id) = expression (load id) ∷ []
  target_expression (other_target x) = []

  abbrev pub assigned_expression : Statement X O → List (Statement X O)
  assigned_expression (assign target targets value) = target_expression target
  assigned_expression (aug_assign target rest) = target_expression target
  assigned_expression (ann_assign target rest) = target_expression target
  assigned_expression (expression e) = []
  assigned_expression (raise_result e) = []
  assigned_expression (other o) = []

  unfoldable pub last_assign_to_expr : List (Statement X O) → List (Statement X O)
  last_assign_to_expr [] = []
  last_assign_to_expr (s ∷ []) = s ∷ assigned_expression s
  last_assign_to_expr (s ∷ t ∷ body) = s ∷ last_assign_to_expr (t ∷ body)

  abbrev pub to_raise : Statement X O → Statement X O
  to_raise (expression e) = raise_result e
  to_raise (raise_result e) = raise_result e
  to_raise (assign target targets value) = assign target targets value
  to_raise (aug_assign target rest) = aug_assign target rest
  to_raise (ann_assign target rest) = ann_assign target rest
  to_raise (other o) = other o

  unfoldable pub last_expr_to_raise : List (Statement X O) → List (Statement X O)
  last_expr_to_raise [] = []
  last_expr_to_raise (s ∷ []) = to_raise s ∷ []
  last_expr_to_raise (s ∷ t ∷ body) = s ∷ last_expr_to_raise (t ∷ body)
