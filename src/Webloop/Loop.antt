-- ===== src/Webloop/Loop.antt =====
-- `WebLoop`: what is scheduled with the browser, the futures that are not done, and the count of those in
-- progress. The browser fires the timers, in an order of its own; a callback of the user's is a number, and
-- what it does to the loop are further steps. Durations are numbers of seconds, without fractions.
pub mod Invariant
pub mod Laws
pub mod Idle
pub mod Cancelled
use pyodide.Base.{
  ℕ, suc, Text, codes, Bool, true, false, not, ◌&&◌, List, [], ◌∷◌, ◌++◌, Option, none, some, ◌≡◌,
  ◌⊎◌, inl, inr, if◌then◌else◌, Result, ok, err, Exception,
}
use pyodide.Base.Int.{ℤ, pos, increment, decrement, is_zero, is_negative, sub_ℕ}
use pyodide.Webloop.Futures.{Done, result, exception}
use pyodide.Webloop.Raised.{Raised, ordinary, system_exit, keyboard_interrupt, cancelled_error}

pub data Callback : Type 0 where
  -- self._decrement_in_progress, which every future of the loop has as a callback
  decrement_in_progress : Callback
  user : ℕ → Callback

-- asyncio.Handle
pub record Handle : Type 0 where
  pub id : ℕ
  pub callback : Callback
  pub cancelled : Bool

-- What comes out of a run: calls of the handlers, and exceptions that the browser gets.
pub data Event : Type 0 where
  no_in_progress keyboard_interrupt_handled : Event
  system_exit_handled : ℕ → Event
  escaped : Raised → Event
  -- Handle._run gives it to call_exception_handler.
  reported : Raised → Event

pub record WebLoop : Type 0 where
  pub in_progress : ℤ
  pub no_in_progress_handler : Bool
  pub system_exit_handler : Bool
  pub keyboard_interrupt_handler : Bool
  pub timers : List Handle
  -- The futures made by the loop that are not done.
  pub pending : List ℕ
  pub next_id : ℕ
  -- The handles that have run, last first.
  pub ran : List ℕ
  pub events : List Event

abbrev pub emit : Event → WebLoop → WebLoop
emit e s = record s { events = e ∷ s.events }

-- scheduleCallback(run_handle, delay * 1000)
unfoldable pub call_soon : Callback → WebLoop → WebLoop
call_soon callback s = record s {
  timers = record { id = s.next_id; callback = callback; cancelled = false } ∷ s.timers;
  next_id = suc s.next_id;
}

unfoldable pub call_later : ℤ → Callback → WebLoop → Result WebLoop
unfolding call_soon
call_later delay callback s =
    if is_negative delay
    then err (Exception.value_error (codes "Can't schedule in the past"))
    else ok (call_soon callback s)

unfoldable pub decrement_count : WebLoop → WebLoop
decrement_count s =
    let s' = record s { in_progress = decrement s.in_progress } in
    if s.no_in_progress_handler && is_zero s'.in_progress then emit no_in_progress s' else s'

-- h._run(), by its callback
unfoldable pub run_callback : Callback → WebLoop → WebLoop
unfolding decrement_count
run_callback decrement_in_progress s = decrement_count s
run_callback (user k) s = s

-- The `except` clauses of `run_handle`, and those of `Handle._run`.
unfoldable pub handle_raised : Option Raised → WebLoop → WebLoop
handle_raised none s = s
handle_raised (some (system_exit code)) s =
    emit (if s.system_exit_handler then system_exit_handled code else escaped (system_exit code)) s
handle_raised (some keyboard_interrupt) s =
    emit
      (if s.keyboard_interrupt_handler
        then keyboard_interrupt_handled
        else escaped keyboard_interrupt)
      s
handle_raised (some (ordinary x)) s = emit (reported (ordinary x)) s
handle_raised (some cancelled_error) s = emit (reported cancelled_error) s

-- fut.set_result or fut.set_exception, of every BaseException
abbrev pub ended : {V : Type 0} → V ⊎ Raised → Done V
ended (inl v) = result v
ended (inr x) = exception x

-- `raised` is what the callback raises.
unfoldable pub run_handle : Handle → Option Raised → WebLoop → WebLoop
unfolding run_callback handle_raised
run_handle h raised s =
    if h.cancelled
    then s
    else handle_raised raised (run_callback h.callback (record s { ran = h.id ∷ s.ran }))

-- `create_future` and `create_task`: one more in progress, with the callback that takes it off.
unfoldable pub create_future : WebLoop → WebLoop
create_future s = record s {
  in_progress = increment s.in_progress;
  pending = s.next_id ∷ s.pending;
  next_id = suc s.next_id;
}

-- call_at(when, callback); `now` is self.time().
unfoldable pub call_at : ℕ → ℕ → Callback → WebLoop → Result WebLoop
unfolding call_later
call_at now when callback s = call_later (sub_ℕ when now) callback s

-- A new future that is done at once: with the result of the call, or with what it raises.
unfoldable pub run_in_executor : {V : Type 0} → V ⊎ Raised → WebLoop → Done V × WebLoop
unfolding create_future call_soon
run_in_executor called s =
    let made = create_future s in
    (ended called, call_soon decrement_in_progress (record made { pending = s.pending }))

pub data Step : WebLoop → WebLoop → Type 0 where
  create : (s : WebLoop) → Step s (create_future s)
  -- A future is done: asyncio schedules its callbacks.
  settle :
      (s : WebLoop) (before after : List ℕ) (f : ℕ)
      → s.pending ≡ before ++ f ∷ after
      → Step s (call_soon decrement_in_progress (record s { pending = before ++ after }))
  schedule : (s t : WebLoop) (delay : ℤ) (k : ℕ) → call_later delay (user k) s ≡ ok t → Step s t
  -- The user has the handles of the user's callbacks.
  cancel :
      (s : WebLoop) (before after : List Handle) (h : Handle) (k : ℕ)
      → s.timers ≡ before ++ h ∷ after
      → h.callback ≡ user k
      → Step s (record s { timers = before ++ record h { cancelled = true } ∷ after })
  fire :
      (s : WebLoop) (before after : List Handle) (h : Handle) (raised : Option Raised)
      → s.timers ≡ before ++ h ∷ after
      → Step s (run_handle h raised (record s { timers = before ++ after }))

pub data Reachable (start : WebLoop) : WebLoop → Type 0 where
  here : Reachable start start
  there : (s t : WebLoop) → Reachable start s → Step s t → Reachable start t

-- WebLoop(), with the handlers that are set on it.
unfoldable pub new_loop : Bool → Bool → Bool → WebLoop
new_loop no_in_progress_handler system_exit_handler keyboard_interrupt_handler = record {
  in_progress = pos 0;
  no_in_progress_handler = no_in_progress_handler;
  system_exit_handler = system_exit_handler;
  keyboard_interrupt_handler = keyboard_interrupt_handler;
  timers = [];
  pending = [];
  next_id = 0;
  ran = [];
  events = [];
}
