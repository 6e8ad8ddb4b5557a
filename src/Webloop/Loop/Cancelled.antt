-- ===== src/Webloop/Loop/Cancelled.antt =====
-- Cancelled handles.
use pyodide.Base.{
  ℕ, ◌+◌, ◌≤◌, ◌<◌, ◌≡◌, ap, ◌∙◌, subst, inl, inr, Bool, true, not, ◌&&◌, List, ◌∷◌, ◌++◌, Option,
  none, some, count, ltb, Bool-cases, arith, nat_eq, beq_refl, ◌==◌,
}
use pyodide.Base.Int.{decrement, is_zero}
use pyodide.Base.Totals.{total, total-split, total-le}
use pyodide.Webloop.Raised.{Raised, ordinary, system_exit, keyboard_interrupt, cancelled_error}
use pyodide.Webloop.Loop.{
  Callback, decrement_in_progress, user, Handle, WebLoop, call_soon, decrement_count, run_callback,
  handle_raised, run_handle, create_future, Step, create, settle, schedule, cancel, fire, Reachable,
  here, there, new_loop,
}
use pyodide.Webloop.Loop.Invariant.{one_if, with_id, Inv, new_loop-Inv, Reachable-Inv, scheduled}

-- A handle that is waiting, cancelled.
abbrev could_run : ℕ → Handle → ℕ
could_run a h = one_if (a == h.id && not h.cancelled)

-- The handle `a` has not run and cannot.
abbrev pub IsOff : ℕ → WebLoop → Type 0
IsOff a s = (a < s.next_id) × (count a s.ran ≡ 0) × (total (could_run a) s.timers ≡ 0)

raised-IsOff :
    (a : ℕ) (raised : Option Raised) (s : WebLoop) → IsOff a s → IsOff a (handle_raised raised s)
unfolding handle_raised
raised-IsOff a none s off = off
raised-IsOff a (some (system_exit code)) s off = off
raised-IsOff a (some keyboard_interrupt) s off = off
raised-IsOff a (some (ordinary x)) s off = off
raised-IsOff a (some cancelled_error) s off = off

run-IsOff : (a : ℕ) (c : Callback) (s : WebLoop) → IsOff a s → IsOff a (run_callback c s)
unfolding run_callback decrement_count
run-IsOff a decrement_in_progress s off =
    elim (Bool-cases (s.no_in_progress_handler && is_zero (decrement s.in_progress))) [
      | inl idle ↦ rw idle off
      | inr busy ↦ rw busy off
    ]
run-IsOff a (user k) s off = off

soon-IsOff : (a : ℕ) (c : Callback) (s : WebLoop) → IsOff a s → IsOff a (call_soon c s)
unfolding call_soon total
soon-IsOff a c s (below, once, none_left) = (omega (arith, below), once, ground arith)

could_split_of :
    (a : ℕ) (s : WebLoop) (before after : List Handle) (h : Handle)
    → s.timers ≡ before ++ h ∷ after
    → total (could_run a) s.timers ≡ could_run a h + total (could_run a) (before ++ after)
could_split_of a s before after h e =
    ap (total (could_run a)) e ∙ total-split (could_run a) before h after

module _ (a : ℕ) (s : WebLoop) (before after : List Handle) (h : Handle)
    (e : s.timers ≡ before ++ h ∷ after) (off : IsOff a s) where
  fire-IsOff :
      (raised : Option Raised)
      → IsOff a (run_handle h raised (record s { timers = before ++ after }))
  unfolding run_handle count
  fire-IsOff raised = elim (Bool-cases h.cancelled) [
    | inl dropped ↦
        rw dropped (off.0, off.1, omega (arith, could_split_of a s before after h e, off.2))
    | inr live ↦ rw live (
        raised-IsOff a raised _ (
          run-IsOff a h.callback _ (
            off.0,
            ground (arith, could_split_of a s before after h e, off),
            omega (arith, could_split_of a s before after h e, off.2),
          )))
  ]

  cancel-IsOff : IsOff a (record s { timers = before ++ record h { cancelled = true } ∷ after })
  cancel-IsOff = (
    off.0,
    off.1,
    ground (
      arith,
      could_split_of a s before after h e,
      off,
      total-split (could_run a) before (record h { cancelled = true }) after,
    ),
  )

Step-IsOff : (a : ℕ) (s t : WebLoop) → Step s t → IsOff a s → IsOff a t
Step-IsOff a _ _ (create s) off = unfold create_future in (omega (arith, off.0), off.1, off.2)
Step-IsOff a _ _ (settle s before after f e) off =
    soon-IsOff a decrement_in_progress (record s { pending = before ++ after }) off
Step-IsOff a _ _ (schedule s t delay k run) off =
    subst (IsOff a) (scheduled s t delay k run) (soon-IsOff a (user k) s off)
Step-IsOff a _ _ (cancel s before after h k e u) off = cancel-IsOff a s before after h e off
Step-IsOff a _ _ (fire s before after h raised e) off = fire-IsOff a s before after h e off raised

Reachable-IsOff : (a : ℕ) (s t : WebLoop) → Reachable s t → IsOff a s → IsOff a t
Reachable-IsOff a s _ here off = off
Reachable-IsOff a s _ (there r t reach step) off =
    Step-IsOff a r t step (Reachable-IsOff a s r reach off)

only_one : (b : Bool) → one_if b ≤ 1
only_one b = ground arith

-- A waiting handle's identity is on no other handle.
start-IsOff :
    (s : WebLoop) (before after : List Handle) (h : Handle)
    → s.timers ≡ before ++ h ∷ after
    → h.cancelled ≡ true
    → Inv s
    → IsOff h.id s
start-IsOff s before after h e off inv =
    let f = with_id h.id in
    let ids : total f s.timers ≡ f h + total f (before ++ after) =
      ap (total f) e ∙ total-split f before h after in
    let left : total (could_run h.id) (before ++ after) ≤ total f (before ++ after) =
      total-le (could_run h.id) f (before ++ after) (λ x. ground arith) in
    let here_off : could_run h.id h ≡ 0 = ground arith in
    let split = could_split_of h.id s before after h e in
    let own : f h ≡ 1 = ground (arith, beq_refl h.id) in
    let room = inv.once h.id in
    (
      ground (arith, room, ids, own),
      omega (arith, only_one (ltb h.id s.next_id), room, ids, own),
      omega (arith, only_one (ltb h.id s.next_id), room, ids, own, split, here_off, left),
    )

-- A handle that waits, cancelled, in a state that the loop reaches, is not run in that state nor in any
-- later one.
pub cancelled_lem :
    (a b c : Bool) (s t : WebLoop) (before after : List Handle) (h : Handle)
    → Reachable (new_loop a b c) s
    → s.timers ≡ before ++ h ∷ after
    → h.cancelled ≡ true
    → Reachable s t
    → count h.id t.ran ≡ 0
cancelled_lem a b c s t before after h reach e off later =
    let inv = Reachable-Inv (new_loop a b c) s reach (new_loop-Inv a b c) in
    (Reachable-IsOff h.id s t later (start-IsOff s before after h e off inv)).1
