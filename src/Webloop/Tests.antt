-- ===== src/Webloop/Tests.antt =====
-- Runs of the event loop, and the theorems at concrete inputs.
use pyodide.Base.{ℕ, ◌≡◌, refl, true, false, [], ◌∷◌, none, some, ◌≤◌, ◌+◌, ◌&&◌, count, nat_eq}
use mathlib.Core.Option
use pyodide.Base.Int.{pos}
use pyodide.Webloop.Raised.{Raised, ordinary, system_exit}
use pyodide.Webloop.Futures.{
  Done, result, exception, Ending, returns, raises, value, awaitable, then_callback,
  finally_callback,
}
use pyodide.Webloop.Futures.Laws.{
  chained, followed, replaced, then_callback_assoc, finally_callback-eq, then_callback-promised,
  promised, last, called,
}
use pyodide.Webloop.Loop.{
  Handle, WebLoop, user, new_loop, call_soon, call_later, create_future, create, schedule, cancel,
  Reachable, here, there,
}
use pyodide.Webloop.Loop.Invariant.{unfinished, one_if}
use pyodide.Webloop.Loop.Laws.{in_progress_lem}
use pyodide.Webloop.Loop.Idle.{no_in_progress_lem, idle_calls, ends_idle}
use pyodide.Webloop.Loop.Cancelled.{cancelled_lem}
use pyodide.Webloop.Handlers.{Outcome, call_exception_handler, is_fatal}
use pyodide.Webloop.Handlers.Laws.{OnlyFatal, call_exception_handler_lem}

abbrev start : WebLoop
start = new_loop true true false

abbrev one_future : WebLoop
one_future = create_future start

one_future-Reachable : Reachable start one_future
one_future-Reachable = there start one_future here (create start)

abbrev scheduled_once : WebLoop
scheduled_once = call_soon (user 7) start

abbrev handle : Handle
handle = record { id = 0; callback = user 7; cancelled = false }

abbrev handle_off : Handle
handle_off = record { id = 0; callback = user 7; cancelled = true }

abbrev cancelled_once : WebLoop
cancelled_once = record scheduled_once { timers = handle_off ∷ [] }

cancelled_once-Reachable : Reachable start cancelled_once
unfolding call_soon call_later new_loop
cancelled_once-Reachable =
    there scheduled_once cancelled_once
      (there start scheduled_once here (schedule start scheduled_once (pos 1) 7 refl))
      (cancel scheduled_once [] [] handle 7 refl refl)

abbrev double : ℕ → Ending ℕ
double v = returns (awaitable (returns (value (v + v))))

then_callback_assoc_example :
    chained (then_callback (some double) none (result 3)) (then_callback (some double) none)
    ≡ then_callback (some (λ v. followed (double v) double)) none (result 3)
then_callback_assoc_example = then_callback_assoc double double (result 3)

abbrev failed : Done ℕ
failed = exception (ordinary 4)

finally_callback-eq_example :
    finally_callback (double 1) failed
    ≡ then_callback
        (some (λ v. replaced (double 1) (returns (value v))))
        (some (λ x. replaced (double 1) (raises x)))
        failed
finally_callback-eq_example = finally_callback-eq (double 1) failed refl

then_callback-promised_example :
    then_callback (some double) none (result 3)
    ≡ promised (Option.map last (called (some double) none (result 3)))
then_callback-promised_example = then_callback-promised (some double) none (result 3)

in_progress_lem_example :
    (one_future.in_progress ≡ pos (unfinished one_future)) × ((h : ℕ) → count h one_future.ran ≤ 1)
in_progress_lem_example = in_progress_lem true true false one_future one_future-Reachable

no_in_progress_lem_example :
    idle_calls (create_future one_future)
    ≡ idle_calls one_future
      + one_if
          (one_future.no_in_progress_handler && ends_idle one_future (create_future one_future))
no_in_progress_lem_example =
    no_in_progress_lem true true false one_future (create_future one_future) one_future-Reachable
      (create one_future)

cancelled_lem_example : count 0 (create_future cancelled_once).ran ≡ 0
cancelled_lem_example =
    cancelled_lem true true false cancelled_once (create_future cancelled_once) [] [] handle_off
      cancelled_once-Reachable refl refl
      (there cancelled_once (create_future cancelled_once) here (create cancelled_once))

abbrev printing : ℕ → Outcome
printing context = ((context ∷ []) ∷ [], none)

abbrev exits : ℕ → Outcome
exits context = ([], some (system_exit context))

call_exception_handler_lem_example :
    OnlyFatal (call_exception_handler ℕ printing (λ x c. c) (λ x. []) (some exits) 5)
    × ((h : ℕ → Outcome) (x : Raised)
        → some exits ≡ some h
        → (h 5).1 ≡ some x
        → is_fatal x ≡ true
        → (call_exception_handler ℕ printing (λ x c. c) (λ x. []) (some exits) 5).1 ≡ some x)
call_exception_handler_lem_example =
    call_exception_handler_lem ℕ printing (λ x c. c) (λ x. []) (some exits) 5
