-- ===== src/Webloop/Loop/Laws.antt =====
-- What holds of the event loop in every state: the count, and a function run in the executor.
use pyodide.Base.{ℕ, ◌+◌, ◌≤◌, ◌≡◌, ◌≢◌, ◌⊎◌, refl, inl, inr, Bool, [], count, arith, nat_eq}
use pyodide.Base.Int.{pos}
use pyodide.Base.Totals.{total}
use pyodide.Webloop.Raised.{Raised}
use pyodide.Webloop.Futures.{cancelled}
use pyodide.Webloop.Loop.{
  WebLoop, call_soon, create_future, run_in_executor, ended, create, settle, Reachable, there,
  new_loop,
}
use pyodide.Webloop.Loop.Invariant.{unfinished, new_loop-Inv, Reachable-Inv}

-- In every state that the loop reaches, the count is the number of its futures that are not done or whose
-- callback has yet to run, so that it is never negative; and no handle runs twice.
pub in_progress_lem :
    (a b c : Bool) (s : WebLoop)
    → Reachable (new_loop a b c) s
    → (s.in_progress ≡ pos (unfinished s)) × ((h : ℕ) → count h s.ran ≤ 1)
in_progress_lem a b c s reach =
    let inv = Reachable-Inv (new_loop a b c) s reach (new_loop-Inv a b c) in
    (inv.counted, λ h. ground (arith, inv.once h))

ended_ne : {V : Type 0} (called : V ⊎ Raised) → ended called ≢ cancelled
ended_ne (inl v) h = cc
ended_ne (inr x) h = cc

-- The function that runs in the executor has ended when the call returns, whatever it raises; the loop is
-- then as if a future had been made and been settled, so that all that holds of reachable states goes on.
pub run_in_executor_lem :
    {V : Type 0} (called : V ⊎ Raised) (s t : WebLoop)
    → Reachable s t
    → (Reachable s (run_in_executor called t).1)
      × (unfinished (run_in_executor called t).1 ≡ unfinished t + 1)
      × ((run_in_executor called t).0 ≢ cancelled)
unfolding run_in_executor create_future call_soon unfinished total
run_in_executor_lem called s t reach = (
  there (create_future t) _ (there t (create_future t) reach (create t))
      (settle (create_future t) [] t.pending t.next_id refl),
  omega arith,
  ended_ne called,
)
