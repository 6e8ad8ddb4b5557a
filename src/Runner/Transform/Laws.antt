-- ===== src/Runner/Transform/Laws.antt =====
-- What running a transformed source returns.
use pyodide.Base.{◌≡◌, refl, ◌∙◌, List, [], ◌∷◌, Option, none, some, ◌⊎◌, inl, inr, Result, ok}
use pyodide.Runner.Transform.{
  Expression, load, Target, name, other_target, Statement, expression, raise_result, assign,
  aug_assign, ann_assign, other, last_assign_to_expr, last_expr_to_raise, assigned_expression,
  target_expression, to_raise,
}
use pyodide.Runner.Interpreter.{
  Raised, stop, caught, Interpreter, raise_value, eval_statement, eval_block,
}

module _ {X O V R S : Type 0} (python : Interpreter X O V R S) where
  abbrev pub Answer : Type 0
  Answer = Result (Option V)

  -- What comes after a statement, if it does not raise.
  abbrev pub continued : Option (Raised V) → S → (S → Answer × S) → Answer × S
  continued none s rest = rest s
  continued (some x) s rest = (stop x, s)

  abbrev pub no_answer : S → Answer × S
  no_answer s = (ok none, s)

  abbrev pub then_answer : Statement X O → R → S → (S → Answer × S) → Answer × S
  then_answer st r s rest =
      let (raised, s') = eval_statement python st r s in continued raised s' rest

  abbrev pub answer_of : V ⊎ Raised V → Answer
  answer_of (inl v) = ok (some v)
  answer_of (inr x) = stop x

  abbrev pub value_of : Expression X → R → S → Answer × S
  value_of e r s = let (v, s') = python.evaluate e r s in (answer_of v, s')

  -- The last statement's answer: of an expression its value, of another statement none.
  abbrev pub expression_value : Statement X O → R → S → Answer × S
  expression_value (expression e) r s = value_of e r s
  expression_value (raise_result e) r s = then_answer (raise_result e) r s no_answer
  expression_value (assign target targets value) r s =
      then_answer (assign target targets value) r s no_answer
  expression_value (aug_assign target rest) r s = then_answer (aug_assign target rest) r s no_answer
  expression_value (ann_assign target rest) r s = then_answer (ann_assign target rest) r s no_answer
  expression_value (other o) r s = then_answer (other o) r s no_answer

  -- The value of what a statement assigns to, if that is a name.
  abbrev pub target_value : Target X → R → S → Answer × S
  target_value (other_target x) r s = no_answer s
  target_value (name id) r s = value_of (load id) r s

  -- As before, and of an assignment the value of its first target.
  abbrev pub assigned_value : Statement X O → R → S → Answer × S
  assigned_value (assign target targets value) r s =
      then_answer (assign target targets value) r s (target_value target r)
  assigned_value (aug_assign target rest) r s =
      then_answer (aug_assign target rest) r s (target_value target r)
  assigned_value (ann_assign target rest) r s =
      then_answer (ann_assign target rest) r s (target_value target r)
  assigned_value (expression e) r s = value_of e r s
  assigned_value (raise_result e) r s = then_answer (raise_result e) r s no_answer
  assigned_value (other o) r s = then_answer (other o) r s no_answer

  -- The statements are executed in order; the answer is that of the last one.
  unfoldable pub block_value :
      (Statement X O → R → S → Answer × S) → List (Statement X O) → R → S → Answer × S
  block_value last [] r s = no_answer s
  block_value last (st ∷ []) r s = last st r s
  block_value last (st ∷ t ∷ body) r s = then_answer st r s (block_value last (t ∷ body) r)

  -- A block of which the EvalCodeResultException is caught.
  abbrev pub run_block : List (Statement X O) → R → S → Answer × S
  run_block body r s =
      let (raised, s') = eval_block python body r s in continued raised s' no_answer

  run_block-cons_at :
      (raised : Option (Raised V)) (s : S) (body : List (Statement X O)) (r : R)
      → (let after : Option (Raised V) × S = elim raised [
        | none ↦ eval_block python body r s
        | some x ↦ (some x, s)
      ] in
          let (raised', s') = after in continued raised' s' no_answer)
        ≡ continued raised s (run_block body r)
  run_block-cons_at none s body r = refl
  run_block-cons_at (some x) s body r = refl

  run_block-cons :
      (st : Statement X O) (body : List (Statement X O)) (r : R) (s : S)
      → run_block (st ∷ body) r s ≡ then_answer st r s (run_block body r)
  unfolding eval_block
  run_block-cons st body r s =
      run_block-cons_at (eval_statement python st r s).0 (eval_statement python st r s).1 body r

  pub run_block-caught :
      (body : List (Statement X O)) (r : R) (s : S)
      → let (raised, s') = eval_block python body r s in (caught raised, s') ≡ run_block body r s
  run_block-caught body r s =
      run_block-caught_at (eval_block python body r s).0 (eval_block python body r s).1
    where
      run_block-caught_at :
          (raised : Option (Raised V)) (s : S) → (caught raised, s) ≡ continued raised s no_answer
      run_block-caught_at none s = refl
      run_block-caught_at (some x) s = refl

  continued-congr :
      (raised : Option (Raised V)) (s : S) (f g : S → Answer × S)
      → f s ≡ g s
      → continued raised s f ≡ continued raised s g
  continued-congr none s f g h = h
  continued-congr (some x) s f g h = refl

  -- A block that starts with a statement.
  run_block-then :
      (st : Statement X O) (body : List (Statement X O)) (rest : S → Answer × S) (r : R) (s : S)
      → ((s' : S) → run_block body r s' ≡ rest s')
      → run_block (st ∷ body) r s ≡ then_answer st r s rest
  run_block-then st body rest r s h =
      let (raised, s') = eval_statement python st r s in
      run_block-cons st body r s ∙ continued-congr raised s' (run_block body r) rest (h s')

  run_block-nil : (r : R) (s : S) → run_block [] r s ≡ no_answer s
  unfolding eval_block
  run_block-nil r s = refl

  raise_value-answer :
      (v : V ⊎ Raised V) (s : S)
      → continued (some (raise_value python v)) s no_answer ≡ (answer_of v, s)
  raise_value-answer (inl v) s = refl
  raise_value-answer (inr x) s = refl

  run_block-raise :
      (e : Expression X) (r : R) (s : S) → run_block (raise_result e ∷ []) r s ≡ value_of e r s
  unfolding eval_block eval_statement
  run_block-raise e r s = let (v, s') = python.evaluate e r s in raise_value-answer v s'

  to_raise-value :
      (st : Statement X O) (r : R) (s : S)
      → run_block (to_raise st ∷ []) r s ≡ expression_value st r s
  to_raise-value (expression e) r s = run_block-raise e r s
  to_raise-value (raise_result e) r s =
      run_block-then (raise_result e) [] no_answer r s (run_block-nil r)
  to_raise-value (assign target targets value) r s =
      run_block-then (assign target targets value) [] no_answer r s (run_block-nil r)
  to_raise-value (aug_assign target rest) r s =
      run_block-then (aug_assign target rest) [] no_answer r s (run_block-nil r)
  to_raise-value (ann_assign target rest) r s =
      run_block-then (ann_assign target rest) [] no_answer r s (run_block-nil r)
  to_raise-value (other o) r s = run_block-then (other o) [] no_answer r s (run_block-nil r)

  -- Running a source transformed by _last_expr_to_raise executes its statements, in order; it returns the
  -- value of the last one, if that is an expression, and None otherwise.
  pub last_expr_to_raise-value :
      (body : List (Statement X O)) (r : R) (s : S)
      → run_block (last_expr_to_raise body) r s ≡ block_value expression_value body r s
  unfolding last_expr_to_raise block_value
  last_expr_to_raise-value [] r s = run_block-nil r s
  last_expr_to_raise-value (st ∷ []) r s = to_raise-value st r s
  last_expr_to_raise-value (st ∷ t ∷ body) r s =
      run_block-then st (last_expr_to_raise (t ∷ body)) (block_value expression_value (t ∷ body) r)
        r s (last_expr_to_raise-value (t ∷ body) r)

  target_expression-value :
      (target : Target X) (st : Statement X O) (r : R) (s : S)
      → run_block (st ∷ last_expr_to_raise (target_expression target)) r s
        ≡ then_answer st r s (target_value target r)
  unfolding last_expr_to_raise
  target_expression-value (name id) st r s =
      run_block-then st (raise_result (load id) ∷ []) (value_of (load id) r) r s
        (run_block-raise (load id) r)
  target_expression-value (other_target x) st r s =
      run_block-then st [] no_answer r s (run_block-nil r)

  assigned_expression-value :
      (st : Statement X O) (r : R) (s : S)
      → run_block (last_expr_to_raise (st ∷ assigned_expression st)) r s ≡ assigned_value st r s
  unfolding last_expr_to_raise
  assigned_expression-value (assign (name id) targets value) r s =
      target_expression-value (name id) (assign (name id) targets value) r s
  assigned_expression-value (assign (other_target x) targets value) r s =
      target_expression-value (other_target x) (assign (other_target x) targets value) r s
  assigned_expression-value (aug_assign (name id) rest) r s =
      target_expression-value (name id) (aug_assign (name id) rest) r s
  assigned_expression-value (aug_assign (other_target x) rest) r s =
      target_expression-value (other_target x) (aug_assign (other_target x) rest) r s
  assigned_expression-value (ann_assign (name id) rest) r s =
      target_expression-value (name id) (ann_assign (name id) rest) r s
  assigned_expression-value (ann_assign (other_target x) rest) r s =
      target_expression-value (other_target x) (ann_assign (other_target x) rest) r s
  assigned_expression-value (expression e) r s = run_block-raise e r s
  assigned_expression-value (raise_result e) r s =
      run_block-then (raise_result e) [] no_answer r s (run_block-nil r)
  assigned_expression-value (other o) r s =
      run_block-then (other o) [] no_answer r s (run_block-nil r)

  -- If _last_assign_to_expr transforms the source first, it returns also the value of the first target of a
  -- last statement that is an assignment, if that target is a name.
  pub last_assign_to_expr-value :
      (body : List (Statement X O)) (r : R) (s : S)
      → run_block (last_expr_to_raise (last_assign_to_expr body)) r s
        ≡ block_value assigned_value body r s
  unfolding last_assign_to_expr last_expr_to_raise block_value
  last_assign_to_expr-value [] r s = run_block-nil r s
  last_assign_to_expr-value (st ∷ []) r s = assigned_expression-value st r s
  last_assign_to_expr-value (st ∷ t ∷ []) r s =
      run_block-then st (last_expr_to_raise (last_assign_to_expr (t ∷ [])))
        (block_value assigned_value (t ∷ []) r) r s (last_assign_to_expr-value (t ∷ []) r)
  last_assign_to_expr-value (st ∷ t ∷ u ∷ body) r s =
      run_block-then st (last_expr_to_raise (last_assign_to_expr (t ∷ u ∷ body)))
        (block_value assigned_value (t ∷ u ∷ body) r) r s
        (last_assign_to_expr-value (t ∷ u ∷ body) r)

  pub untransformed-value :
      (body : List (Statement X O)) (r : R) (s : S)
      → run_block body r s ≡ block_value (λ st r s. then_answer st r s no_answer) body r s
  unfolding block_value
  untransformed-value [] r s = run_block-nil r s
  untransformed-value (st ∷ []) r s = run_block-then st [] no_answer r s (run_block-nil r)
  untransformed-value (st ∷ t ∷ body) r s =
      run_block-then st (t ∷ body)
        (block_value (λ st r s. then_answer st r s no_answer) (t ∷ body) r) r s
        (untransformed-value (t ∷ body) r)
