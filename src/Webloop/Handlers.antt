-- ===== src/Webloop/Handlers.antt =====
-- The exception handler and the task factory of `WebLoop`, and `WebLoopPolicy`.
pub mod Laws
use pyodide.Base.{
  ℕ, suc, Text, codes, text_eq, Bool, true, false, ◌||◌, List, [], ◌∷◌, ◌++◌, Option, none, some,
  elem, filter, ◌==◌, map, not, Result, ok, err, Exception, if◌then◌else◌,
}
use pyodide.Base.Strings.Methods.{join}
use pyodide.Base.Dict.{Dict, lookup, put, keys}
use pyodide.Webloop.Raised.{Raised, ordinary, system_exit, keyboard_interrupt, cancelled_error}

-- What a setter is given: None, something callable, or anything else.
pub data Setting (H : Type 0) : Type 0 where
  unset : Setting H
  callable : H → Setting H
  uncallable : Setting H

unfoldable pub set_task_factory : {H : Type 0} → Setting H → Result (Option H)
set_task_factory unset = ok none
set_task_factory (callable h) = ok (some h)
set_task_factory uncallable =
    err (Exception.type_error (codes "task factory must be a callable or None"))

-- `repr` is the text of what was given.
unfoldable pub set_exception_handler : {H : Type 0} → Text → Setting H → Result (Option H)
set_exception_handler repr unset = ok none
set_exception_handler repr (callable h) = ok (some h)
set_exception_handler repr uncallable =
    err (Exception.type_error (codes "A callable object or None is expected, got " ++ repr))

-- except (SystemExit, KeyboardInterrupt): raise
abbrev pub is_fatal : Raised → Bool
is_fatal (ordinary x) = false
is_fatal (system_exit code) = true
is_fatal keyboard_interrupt = true
is_fatal cancelled_error = false

-- What a call prints to stderr, and what it raises.
abbrev pub Outcome : Type 0
Outcome = List Text × Option Raised

-- A call in a `try` with that clause, and with what the clause for the other exceptions does.
unfoldable pub guarded : Outcome → (Raised → Outcome) → Outcome
guarded (printed, none) handle = (printed, none)
guarded (printed, some x) handle =
    let rest = handle x in if is_fatal x then (printed, some x) else (printed ++ rest.0, rest.1)

module _ (Context : Type 0) (default_exception_handler : Context → Outcome)
    (unhandled : Raised → Context → Context) (print_exc : Raised → Text) where
  -- `unhandled` is the context for an error in the handler, `print_exc` what traceback.print_exc prints.
  unfoldable pub call_exception_handler : Option (Context → Outcome) → Context → Outcome
  unfolding guarded
  call_exception_handler none context =
      guarded (default_exception_handler context)
        (λ x. (codes "Exception in default exception handler" ∷ print_exc x ∷ [], none))
  call_exception_handler (some handler) context = guarded (handler context) (λ x.
      guarded (default_exception_handler (unhandled x context)) (λ y. (
        codes
              "Exception in default exception handler while handling an unexpected error in custom exception handler"
            ∷ print_exc y
            ∷ [],
        none,
      )))

-- The lines of the default handler. The loop has no current handle, so no handle's traceback is added.
module _ (V : Type 0) (repr : V → Text) (format_list : V → Text) (rstrip : Text → Text)
    (sorted : List Text → List Text) where
  unfoldable pub context_value : Text → V → Text
  context_value key value =
      if key == codes "source_traceback"
      then codes "Object created at (most recent call last):\n" ++ rstrip (format_list value)
      else if key == codes "handle_traceback"
      then codes "Handle created at (most recent call last):\n" ++ rstrip (format_list value)
      else repr value

  abbrev pub context_line : Text → Option V → List Text
  context_line key none = []
  context_line key (some value) = (key ++ (codes ": " ++ context_value key value)) ∷ []

  unfoldable pub context_lines : List Text → Dict Text V → List Text
  unfolding context_value
  context_lines [] context = []
  context_lines (key ∷ ks) context =
      if key == codes "message" || key == codes "exception"
      then context_lines ks context
      else context_line key (lookup key context) ++ context_lines ks context

  -- `message` is the text of context.get("message"), empty if it is missing.
  unfoldable pub log_lines : Text → Dict Text V → List Text
  unfolding context_lines
  log_lines [] context =
      codes "Unhandled exception in event loop" ∷ context_lines (sorted (keys context)) context
  log_lines (c ∷ message) context = (c ∷ message) ∷ context_lines (sorted (keys context)) context

-- `_default_loop`, and the number of loops made.
pub record WebLoopPolicy : Type 0 where
  pub default_loop : Option ℕ
  pub made : ℕ

unfoldable pub new_event_loop : WebLoopPolicy → ℕ × WebLoopPolicy
new_event_loop p = (p.made, record { default_loop = some p.made; made = suc p.made })

abbrev pub loop_or_new : Option ℕ → WebLoopPolicy → ℕ × WebLoopPolicy
loop_or_new none p = new_event_loop p
loop_or_new (some loop) p = (loop, p)

unfoldable pub get_event_loop : WebLoopPolicy → ℕ × WebLoopPolicy
unfolding new_event_loop
get_event_loop p = loop_or_new p.default_loop p

unfoldable pub set_event_loop : Option ℕ → WebLoopPolicy → WebLoopPolicy
set_event_loop loop p = record p { default_loop = loop }
