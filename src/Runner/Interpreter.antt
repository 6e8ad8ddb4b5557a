-- ===== src/Runner/Interpreter.antt =====
-- What evaluating an expression and executing a statement do is Python's: parameters. A block runs its
-- statements in order up to the first that raises.
use pyodide.Base.{List, [], ◌∷◌, Option, none, some, ◌⊎◌, inl, inr, Exception, Result, ok, err}
use pyodide.Runner.Transform.{
  Expression, Statement, expression, raise_result, assign, aug_assign, ann_assign, other,
}

-- An EvalCodeResultException with its value, or another exception.
pub data Raised (V : Type 0) : Type 0 where
  result_exception : V → Raised V
  exception : Exception → Raised V

-- What a caller gets that catches EvalCodeResultException: None or a value, or another exception.
abbrev pub stop : {V : Type 0} → Raised V → Result (Option V)
stop (result_exception v) = ok (some v)
stop (exception x) = err x

abbrev pub caught : {V : Type 0} → Option (Raised V) → Result (Option V)
caught none = ok none
caught (some x) = stop x

-- `R` holds the globals and the locals, `S` is the state of the interpreter.
pub record Interpreter (X O V R S : Type 0) : Type 0 where
  pub evaluate : Expression X → R → S → (V ⊎ Raised V) × S
  pub execute : Statement X O → R → S → Option (Raised V) × S

module _ {X O V R S : Type 0} (python : Interpreter X O V R S) where
  abbrev pub discard_value : V ⊎ Raised V → Option (Raised V)
  discard_value (inl v) = none
  discard_value (inr x) = some x

  abbrev pub raise_value : V ⊎ Raised V → Raised V
  raise_value (inl v) = result_exception v
  raise_value (inr x) = x

  unfoldable pub eval_statement : Statement X O → R → S → Option (Raised V) × S
  eval_statement (expression e) r s = let (v, s') = python.evaluate e r s in (discard_value v, s')
  eval_statement (raise_result e) r s =
      let (v, s') = python.evaluate e r s in (some (raise_value v), s')
  eval_statement (assign target targets value) r s =
      python.execute (assign target targets value) r s
  eval_statement (aug_assign target rest) r s = python.execute (aug_assign target rest) r s
  eval_statement (ann_assign target rest) r s = python.execute (ann_assign target rest) r s
  eval_statement (other o) r s = python.execute (other o) r s

  unfoldable pub eval_block : List (Statement X O) → R → S → Option (Raised V) × S
  unfolding eval_statement
  eval_block [] r s = (none, s)
  eval_block (first ∷ rest) r s =
      let (raised, s') = eval_statement first r s in
      elim raised [ none ↦ eval_block rest r s' | some x ↦ (some x, s') ]
