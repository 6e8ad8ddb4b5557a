-- ===== src/Webloop/Loop/Idle.antt =====
-- When the handler for no tasks in progress is called.
use pyodide.Base.{
  ℕ, ◌+◌, ◌≡◌, refl, ap, ◌∙◌, subst, inl, inr, Bool, true, false, ◌&&◌, List, ◌∷◌, ◌++◌, Option,
  none, some, length, length-append, ltb, eqb, Bool-cases, arith, nat_eq,
}
use pyodide.Base.Int.{decrement, is_zero}
use pyodide.Base.Totals.{total, total-split}
use pyodide.Webloop.Raised.{Raised, ordinary, system_exit, keyboard_interrupt, cancelled_error}
use pyodide.Webloop.Loop.{
  Callback, decrement_in_progress, user, Handle, Event, no_in_progress, keyboard_interrupt_handled,
  system_exit_handled, escaped, reported, WebLoop, call_soon, decrement_count, run_callback,
  handle_raised, run_handle, create_future, Step, create, settle, schedule, cancel, fire, Reachable,
  new_loop,
}
use pyodide.Webloop.Loop.Invariant.{
  one_if, decrements, unfinished, Inv, new_loop-Inv, Reachable-Inv, split_of, rest-IsLive,
  scheduled,
}

abbrev is_idle_call : Event → Bool
is_idle_call no_in_progress = true
is_idle_call keyboard_interrupt_handled = false
is_idle_call (system_exit_handled code) = false
is_idle_call (escaped x) = false
is_idle_call (reported x) = false

-- How often `_no_in_progress_handler` was called.
unfoldable pub idle_calls : WebLoop → ℕ
unfolding total
idle_calls s = total (λ e. one_if (is_idle_call e)) s.events

-- A step after which nothing is in progress, where something was before.
abbrev pub ends_idle : WebLoop → WebLoop → Bool
ends_idle s t = ltb 0 (unfinished s) && eqb (unfinished t) 0

abbrev CallsIdle : WebLoop → WebLoop → Type 0
CallsIdle s t = idle_calls t ≡ idle_calls s + one_if (s.no_in_progress_handler && ends_idle s t)

raised_idle :
    (raised : Option Raised) (s : WebLoop)
    → (idle_calls (handle_raised raised s) ≡ idle_calls s)
      × (unfinished (handle_raised raised s) ≡ unfinished s)
unfolding handle_raised idle_calls unfinished
raised_idle none s = (refl, refl)
raised_idle (some (system_exit code)) s = (ground arith, refl)
raised_idle (some keyboard_interrupt) s = (ground arith, refl)
raised_idle (some (ordinary x)) s = (ground arith, refl)
raised_idle (some cancelled_error) s = (ground arith, refl)

module _ (s : WebLoop) (before after : List Handle) (h : Handle)
    (e : s.timers ≡ before ++ h ∷ after) (inv : Inv s) where
  abbrev taken : WebLoop
  taken = record s { timers = before ++ after; ran = h.id ∷ s.ran }

  run_idle : (c : Callback) → h.callback ≡ c → CallsIdle s (run_callback c taken)
  unfolding run_callback decrement_count idle_calls unfinished
  run_idle decrement_in_progress u =
      elim (Bool-cases (s.no_in_progress_handler && is_zero (decrement s.in_progress))) [
        | inl idle ↦
            rw idle (ground (arith, inv.counted, split_of s before after h e inv decrements, u))
        | inr busy ↦
            rw busy (ground (arith, inv.counted, split_of s before after h e inv decrements, u))
      ]
  run_idle (user k) u = ground (arith, split_of s before after h e inv decrements, u)

  dropped_idle : h.cancelled ≡ true → CallsIdle s (record s { timers = before ++ after })
  unfolding idle_calls unfinished
  dropped_idle c =
      ground
        (arith, split_of s before after h e inv decrements, (rest-IsLive s before after h e inv).0)

  fire_idle :
      (raised : Option Raised)
      → CallsIdle s (run_handle h raised (record s { timers = before ++ after }))
  unfolding run_handle
  fire_idle raised = elim (Bool-cases h.cancelled) [
    | inl dropped ↦ rw dropped (dropped_idle dropped)
    | inr live ↦ rw live (
        ground
          (arith, raised_idle raised (run_callback h.callback taken), run_idle h.callback refl))
  ]

user_idle : (s : WebLoop) (k : ℕ) → CallsIdle s (call_soon (user k) s)
unfolding call_soon idle_calls unfinished total
user_idle s k = ground arith

cancel_idle :
    (s : WebLoop) (before after : List Handle) (h : Handle)
    → s.timers ≡ before ++ h ∷ after
    → CallsIdle s (record s { timers = before ++ record h { cancelled = true } ∷ after })
unfolding idle_calls unfinished
cancel_idle s before after h e = ground (
  arith,
  ap (total decrements) e ∙ total-split decrements before h after,
  total-split decrements before (record h { cancelled = true }) after,
)

Step-CallsIdle : (s t : WebLoop) → Step s t → Inv s → CallsIdle s t
unfolding idle_calls unfinished
Step-CallsIdle _ _ (create s) inv = unfold create_future in ground arith
Step-CallsIdle _ _ (settle s before after f e) inv =
    unfold call_soon total in
    ground (arith, ap length e, length-append before (f ∷ after), length-append before after)
Step-CallsIdle _ _ (schedule s t delay k run) inv =
    subst (CallsIdle s) (scheduled s t delay k run) (user_idle s k)
Step-CallsIdle _ _ (cancel s before after h k e u) inv = cancel_idle s before after h e
Step-CallsIdle _ _ (fire s before after h raised e) inv = fire_idle s before after h e inv raised

-- In every state that the loop reaches, a step calls the handler for no tasks in progress, if there is
-- one, exactly when something was in progress before and nothing is after it, and then once.
pub no_in_progress_lem :
    (a b c : Bool) (s t : WebLoop)
    → Reachable (new_loop a b c) s
    → Step s t
    → idle_calls t ≡ idle_calls s + one_if (s.no_in_progress_handler && ends_idle s t)
no_in_progress_lem a b c s t reach step =
    Step-CallsIdle s t step (Reachable-Inv (new_loop a b c) s reach (new_loop-Inv a b c))
