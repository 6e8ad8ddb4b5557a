-- ===== src/Webloop/Loop/Invariant.antt =====
-- The count of what is in progress, and how often a handle runs.
use pyodide.Base.{
  ℕ, ◌+◌, ◌≤◌, ◌≡◌, refl, ap, ◌∙◌, subst, inl, inr, Bool, true, false, ◌&&◌, List, ◌∷◌, ◌++◌,
  Option, none, some, All, count, length, length-append, ltb, Bool-cases, if◌then◌else◌, arith, ok,
  nat_eq, ◌==◌,
}
use pyodide.Base.Int.{ℤ, pos, decrement, is_zero}
use pyodide.Base.Totals.{total, total-split, All-split, All-insert}
use pyodide.Webloop.Raised.{Raised, ordinary, system_exit, keyboard_interrupt, cancelled_error}
use pyodide.Webloop.Loop.{
  Callback, decrement_in_progress, user, Handle, Event, WebLoop, emit, call_soon, call_later,
  decrement_count, run_callback, handle_raised, run_handle, create_future, Step, create, settle,
  schedule, cancel, fire, Reachable, here, there, new_loop,
}

abbrev pub one_if : Bool → ℕ
one_if b = if b then 1 else 0

abbrev pub is_decrement : Callback → Bool
is_decrement decrement_in_progress = true
is_decrement (user k) = false

abbrev pub decrements : Handle → ℕ
decrements h = one_if (is_decrement h.callback)

-- The futures that are not done, or whose callback has yet to run.
unfoldable pub unfinished : WebLoop → ℕ
unfolding total
unfinished s = length s.pending + total decrements s.timers

abbrev pub with_id : ℕ → Handle → ℕ
with_id a h = one_if (a == h.id)

abbrev pub IsLive : Handle → Type 0
IsLive h = is_decrement h.callback && h.cancelled ≡ false

pub record Inv (s : WebLoop) : Type 0 where
  pub counted : s.in_progress ≡ pos (unfinished s)
  pub live : All IsLive s.timers
  pub once : (a : ℕ) → count a s.ran + total (with_id a) s.timers ≤ one_if (ltb a s.next_id)

emit-Inv : (e : Event) (s : WebLoop) → Inv s → Inv (emit e s)
unfolding unfinished
emit-Inv e s inv = record { counted = inv.counted; live = inv.live; once = inv.once }

raised-Inv : (raised : Option Raised) (s : WebLoop) → Inv s → Inv (handle_raised raised s)
unfolding handle_raised
raised-Inv none s inv = inv
raised-Inv (some (system_exit code)) s inv = emit-Inv _ s inv
raised-Inv (some keyboard_interrupt) s inv = emit-Inv _ s inv
raised-Inv (some (ordinary x)) s inv = emit-Inv _ s inv
raised-Inv (some cancelled_error) s inv = emit-Inv _ s inv

create-Inv : (s : WebLoop) → Inv s → Inv (create_future s)
unfolding create_future unfinished
create-Inv s inv = record {
  counted = ground (arith, inv.counted);
  live = inv.live;
  once = λ a. ground (arith, inv.once a);
}

user-Inv : (s : WebLoop) (k : ℕ) → Inv s → Inv (call_soon (user k) s)
unfolding call_soon unfinished total count
user-Inv s k inv = record {
  counted = ground (arith, inv.counted);
  live = (refl, inv.live);
  once = λ a. ground (arith, inv.once a);
}

settle-Inv :
    (s : WebLoop) (before after : List ℕ) (f : ℕ)
    → s.pending ≡ before ++ f ∷ after
    → Inv s
    → Inv (call_soon decrement_in_progress (record s { pending = before ++ after }))
unfolding call_soon unfinished total count
settle-Inv s before after f e inv = record {
  counted = ground (
    arith,
    inv.counted,
    ap length e,
    length-append before (f ∷ after),
    length-append before after,
  );
  live = (refl, inv.live);
  once = λ a. ground (arith, inv.once a);
}

cancel-Inv :
    (s : WebLoop) (before after : List Handle) (h : Handle) (k : ℕ)
    → s.timers ≡ before ++ h ∷ after
    → h.callback ≡ user k
    → Inv s
    → Inv (record s { timers = before ++ record h { cancelled = true } ∷ after })
unfolding unfinished
cancel-Inv s before after h k e u inv = record {
  counted = ground (arith, inv.counted, split_of decrements, joined decrements, u);
  live =
      All-insert IsLive before (record h { cancelled = true }) after (ground (arith, u))
        (All-split IsLive before h after (subst (All IsLive) e inv.live)).1;
  once = λ a. ground (arith, inv.once a, split_of (with_id a), joined (with_id a));
}
  where
    split_of : (f : Handle → ℕ) → total f s.timers ≡ f h + total f (before ++ after)
    split_of f = ap (total f) e ∙ total-split f before h after

    joined :
        (f : Handle → ℕ)
        → total f (before ++ record h { cancelled = true } ∷ after)
          ≡ f (record h { cancelled = true }) + total f (before ++ after)
    joined f = total-split f before (record h { cancelled = true }) after

-- A handle that is taken from the timers and runs.
module _ (s : WebLoop) (before after : List Handle) (h : Handle)
    (e : s.timers ≡ before ++ h ∷ after) (inv : Inv s) where
  pub split_of : (f : Handle → ℕ) → total f s.timers ≡ f h + total f (before ++ after)
  split_of f = ap (total f) e ∙ total-split f before h after

  pub rest-IsLive : All IsLive (h ∷ (before ++ after))
  rest-IsLive = All-split IsLive before h after (subst (All IsLive) e inv.live)

  abbrev taken : WebLoop
  taken = record s { timers = before ++ after; ran = h.id ∷ s.ran }

  decrement_run-Inv : h.callback ≡ decrement_in_progress → Inv (decrement_count taken)
  unfolding unfinished decrement_count count split_of
  decrement_run-Inv u =
      let count_down : decrement s.in_progress
          ≡ pos (length s.pending + total decrements (before ++ after)) =
        ground (arith, inv.counted, split_of decrements, u) in
      elim (Bool-cases (s.no_in_progress_handler && is_zero (decrement s.in_progress))) [
        | inl idle ↦ rw idle (record {
          counted = count_down;
          live = rest-IsLive.1;
          once = λ a. ground (arith, inv.once a, split_of (with_id a));
        })
        | inr busy ↦ rw busy (record {
          counted = count_down;
          live = rest-IsLive.1;
          once = λ a. ground (arith, inv.once a, split_of (with_id a));
        })
      ]

  user_run-Inv : (k : ℕ) → h.callback ≡ user k → Inv taken
  unfolding unfinished count
  user_run-Inv k u = record {
    counted = ground (arith, inv.counted, split_of decrements, u);
    live = rest-IsLive.1;
    once = λ a. ground (arith, inv.once a, split_of (with_id a));
  }

  run-Inv : (c : Callback) → h.callback ≡ c → Inv (run_callback c taken)
  unfolding run_callback
  run-Inv decrement_in_progress u = decrement_run-Inv u
  run-Inv (user k) u = user_run-Inv k u

  -- A cancelled handle is the user's.
  dropped-Inv : h.cancelled ≡ true → Inv (record s { timers = before ++ after })
  unfolding unfinished
  dropped-Inv c = record {
    counted = ground (arith, inv.counted, split_of decrements, rest-IsLive.0);
    live = rest-IsLive.1;
    once = λ a. ground (arith, inv.once a, split_of (with_id a));
  }

  fire-Inv :
      (raised : Option Raised) → Inv (run_handle h raised (record s { timers = before ++ after }))
  unfolding run_handle
  fire-Inv raised = elim (Bool-cases h.cancelled) [
    | inl dropped ↦ rw dropped (dropped-Inv dropped)
    | inr live ↦
        rw live (raised-Inv raised (run_callback h.callback taken) (run-Inv h.callback refl))
  ]

pub scheduled :
    (s t : WebLoop) (delay : ℤ) (k : ℕ)
    → call_later delay (user k) s ≡ ok t
    → call_soon (user k) s ≡ t
unfolding call_later
scheduled s t delay k run = ground arith

pub step-Inv : (s t : WebLoop) → Step s t → Inv s → Inv t
step-Inv _ _ (create s) inv = create-Inv s inv
step-Inv _ _ (settle s before after f e) inv = settle-Inv s before after f e inv
step-Inv _ _ (schedule s t delay k run) inv =
    subst Inv (scheduled s t delay k run) (user-Inv s k inv)
step-Inv _ _ (cancel s before after h k e u) inv = cancel-Inv s before after h k e u inv
step-Inv _ _ (fire s before after h raised e) inv = fire-Inv s before after h e inv raised

pub new_loop-Inv : (a b c : Bool) → Inv (new_loop a b c)
unfolding new_loop unfinished total count
new_loop-Inv a b c = record { counted = ground arith; live = tt; once = λ n. omega arith }

pub Reachable-Inv : (s t : WebLoop) → Reachable s t → Inv s → Inv t
Reachable-Inv s _ here inv = inv
Reachable-Inv s _ (there r t reach step) inv = step-Inv r t step (Reachable-Inv s r reach inv)
