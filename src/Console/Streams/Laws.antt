-- ===== src/Console/Streams/Laws.antt =====
-- Redirections nest, and what a redirected block leaves of the streams.
use pyodide.Base.{
  Text, codes, ◌≡◌, refl, ap, ◌∙◌, Bool, true, false, List, [], ◌∷◌, ◌++◌, Option, none, some,
  if◌then◌else◌, inl, inr, Bool-cases,
}
use pyodide.Console.Streams.{
  Stream, handled, Streams, Callbacks, Suspended, Redirection, Program, finishes, raises, uses,
  assigns, within, Run, stream_of, set_stream, stream_name, redirects_of, enter_all, exit_all,
  start_inner, finish_inner, persistent_redirect_streams, persistent_restore_streams, run,
}

-- What a program does and the streams it leaves.
pub record Outcome (H : Type 0) : Type 0 where
  pub trace : List (Stream H × Text)
  pub raised : Bool
  pub streams : Streams H

module _ {H : Type 0} where
  -- The stream a use is of, if the streams are redirected.
  abbrev pub inside_one : Text → Option H → Stream H → Stream H
  inside_one default none stream = stream
  inside_one default (some handler) stream = handled handler (stream_name stream default)

  unfoldable pub inside : Callbacks H → Streams H → Streams H
  unfolding codes
  inside callbacks sys = record {
    stdin_stream = inside_one (codes "<stdin>") callbacks.stdin_callback sys.stdin_stream;
    stdout_stream = inside_one (codes "<stdout>") callbacks.stdout_callback sys.stdout_stream;
    stderr_stream = inside_one (codes "<stderr>") callbacks.stderr_callback sys.stderr_stream;
  }

  enter_all-inside :
      (a b c : Option H) (sys : Streams H)
      → let callbacks : Callbacks H = record {
        stdin_callback = a;
        stdout_callback = b;
        stderr_callback = c;
      } in
        (enter_all (redirects_of callbacks sys) [] sys).1 ≡ inside callbacks sys
  unfolding redirects_of enter_all inside
  enter_all-inside none none none sys = refl
  enter_all-inside none none (some c) sys = refl
  enter_all-inside none (some b) none sys = refl
  enter_all-inside none (some b) (some c) sys = refl
  enter_all-inside (some a) none none sys = refl
  enter_all-inside (some a) none (some c) sys = refl
  enter_all-inside (some a) (some b) none sys = refl
  enter_all-inside (some a) (some b) (some c) sys = refl

  -- A stream after a redirected block: that of before it, if it was redirected, or what the block left.
  abbrev pub merged_one : Option H → Stream H → Stream H → Stream H
  merged_one none before left = left
  merged_one (some handler) before left = before

  unfoldable pub merged : Callbacks H → Streams H → Streams H → Streams H
  merged callbacks before left = record {
    stdin_stream = merged_one callbacks.stdin_callback before.stdin_stream left.stdin_stream;
    stdout_stream = merged_one callbacks.stdout_callback before.stdout_stream left.stdout_stream;
    stderr_stream = merged_one callbacks.stderr_callback before.stderr_stream left.stderr_stream;
  }

  exit_all-merged :
      (a b c : Option H) (before left : Streams H)
      → let callbacks : Callbacks H = record {
        stdin_callback = a;
        stdout_callback = b;
        stderr_callback = c;
      } in
        exit_all (enter_all (redirects_of callbacks before) [] before).0 left
        ≡ merged callbacks before left
  unfolding redirects_of enter_all exit_all merged
  exit_all-merged none none none before left = refl
  exit_all-merged none none (some c) before left = refl
  exit_all-merged none (some b) none before left = refl
  exit_all-merged none (some b) (some c) before left = refl
  exit_all-merged (some a) none none before left = refl
  exit_all-merged (some a) none (some c) before left = refl
  exit_all-merged (some a) (some b) none before left = refl
  exit_all-merged (some a) (some b) (some c) before left = refl

  -- The streams at the start of a redirected block and after it, if the streams are redirected already or not.
  abbrev pub entered : Callbacks H → Bool → Streams H → Streams H
  entered callbacks true sys = sys
  entered callbacks false sys = inside callbacks sys

  abbrev pub restored : Callbacks H → Bool → Streams H → Streams H → Streams H
  restored callbacks true before left = left
  restored callbacks false before left = merged callbacks before left

  abbrev pub redirection : Streams H → Bool → Option (Suspended H) → Redirection H
  redirection sys flag generator = record {
    sys = sys;
    streams_redirected = flag;
    stream_generator = generator;
  }

  start_inner-entered :
      (callbacks : Callbacks H) (sys : Streams H) (flag : Bool) (generator : Option (Suspended H))
      → (start_inner callbacks (redirection sys flag generator)).1
        ≡ redirection (entered callbacks flag sys) true generator
  unfolding start_inner
  start_inner-entered callbacks sys true generator = refl
  start_inner-entered callbacks sys false generator =
      ap (λ l. redirection l true generator)
        (enter_all-inside callbacks.stdin_callback callbacks.stdout_callback
          callbacks.stderr_callback sys)

  finish_inner-restored :
      (callbacks : Callbacks H) (sys left : Streams H) (flag : Bool)
      (generator : Option (Suspended H))
      → finish_inner
          (start_inner callbacks (redirection sys flag generator)).0
          (redirection left true generator)
        ≡ redirection (restored callbacks flag sys left) flag generator
  unfolding start_inner finish_inner
  finish_inner-restored callbacks sys left true generator = refl
  finish_inner-restored callbacks sys left false generator =
      ap (λ l. redirection l false generator)
        (exit_all-merged callbacks.stdin_callback callbacks.stdout_callback
          callbacks.stderr_callback sys left)

  -- What code does if a redirected block starts with the callbacks' streams and ends with the streams of before
  -- it where there is a callback; a block in a redirected block is as if it were not one.
  unfoldable pub reference : Callbacks H → Program H → Bool → Streams H → Outcome H
  reference callbacks finishes flag sys = record { trace = []; raised = false; streams = sys }
  reference callbacks raises flag sys = record { trace = []; raised = true; streams = sys }
  reference callbacks (uses which text rest) flag sys =
      let next = reference callbacks rest flag sys in
      record next { trace = (stream_of which sys, text) ∷ next.trace }
  reference callbacks (assigns which stream rest) flag sys =
      reference callbacks rest flag (set_stream which stream sys)
  reference callbacks (within body rest) flag sys =
      let block = reference callbacks body true (entered callbacks flag sys) in
      let after = restored callbacks flag sys block.streams in
      let next = reference callbacks rest flag after in
      if block.raised
      then record block { streams = after }
      else record next { trace = block.trace ++ next.trace }

  -- The run that has the outcome.
  abbrev pub outcome_run : Bool → Option (Suspended H) → Outcome H → Run H
  outcome_run flag generator o = record {
    trace = o.trace;
    raised = o.raised;
    left = redirection o.streams flag generator;
  }

  run-reference :
      (callbacks : Callbacks H) (p : Program H) (sys : Streams H) (flag : Bool)
      (generator : Option (Suspended H))
      → run callbacks p (redirection sys flag generator)
        ≡ outcome_run flag generator (reference callbacks p flag sys)
  unfolding run reference
  run-reference callbacks finishes sys flag generator = refl
  run-reference callbacks raises sys flag generator = refl
  run-reference callbacks (uses which text rest) sys flag generator =
      ap {A = Run H} (λ next. record next { trace = (stream_of which sys, text) ∷ next.trace })
        (run-reference callbacks rest sys flag generator)
  run-reference callbacks (assigns which stream rest) sys flag generator =
      run-reference callbacks rest (set_stream which stream sys) flag generator
  run-reference callbacks (within body rest) sys flag generator =
      let block = reference callbacks body true (entered callbacks flag sys) in
      let after = restored callbacks flag sys block.streams in
      rw
        (
          start_inner-entered callbacks sys flag generator,
          run-reference callbacks body (entered callbacks flag sys) true generator,
          finish_inner-restored callbacks sys block.streams flag generator,
          run-reference callbacks rest after flag generator,
        )
        (elim (Bool-cases block.raised) [ inl raised ↦ rw raised refl | inr ended ↦ rw ended refl ])

  -- Whatever code does with the streams, setting those of sys too, however its redirected blocks are nested and
  -- wherever it raises: each use is of the stream that the reference gives, where a redirected block, unless it
  -- is in another, starts with the callbacks' streams, and after it, also if it raises, the streams that have
  -- a callback are those of before it and the others are as the block left them. The mark that streams are
  -- redirected and the persistent redirection are as they were.
  pub run_lem :
      (callbacks : Callbacks H) (p : Program H) (s : Redirection H)
      → let o = reference callbacks p s.streams_redirected s.sys in
        ((run callbacks p s).trace ≡ o.trace)
        × ((run callbacks p s).raised ≡ o.raised)
        × ((run callbacks p s).left ≡ record s { sys = o.streams })
  run_lem callbacks p s =
      let same = run-reference callbacks p s.sys s.streams_redirected s.stream_generator in
      (ap (λ r. r.trace) same, ap (λ r. r.raised) same, ap (λ r. r.left) same)

  -- What restoring does to the streams that a program leaves.
  finish_persistent :
      (callbacks : Callbacks H) (sys left : Streams H) (generator : Option (Suspended H))
      → finish_inner
          (start_inner callbacks (redirection sys false none)).0
          (redirection left true generator)
        ≡ redirection (merged callbacks sys left) false generator
  unfolding start_inner finish_inner
  finish_persistent callbacks sys left generator =
      ap (λ l. redirection l false generator)
        (exit_all-merged callbacks.stdin_callback callbacks.stdout_callback
          callbacks.stderr_callback sys left)

  -- The streams are redirected, a program runs, and they are restored.
  unfoldable pub persistently : Callbacks H → Program H → Redirection H → Run H
  unfolding persistent_redirect_streams persistent_restore_streams run
  persistently callbacks p s =
      let r = run callbacks p (persistent_redirect_streams callbacks s) in
      record r { left = persistent_restore_streams r.left }

  -- A persistent redirection, from streams that are not redirected, is as one block.
  pub persistently_lem :
      (callbacks : Callbacks H) (p : Program H) (sys : Streams H)
      → let o = reference callbacks p true (inside callbacks sys) in
        persistently callbacks p (redirection sys false none)
        ≡ outcome_run false none (record o { streams = merged callbacks sys o.streams })
  unfolding persistently persistent_redirect_streams persistent_restore_streams
  persistently_lem callbacks p sys =
      let s : Redirection H = redirection sys false none in
      let o = reference callbacks p true (inside callbacks sys) in
      let generator = (start_inner callbacks s).0 in
      let start : persistent_redirect_streams callbacks s
          ≡ redirection (inside callbacks sys) true (some generator) =
        ap {A = Redirection H} (λ s'. record s' { stream_generator = some generator })
          (start_inner-entered callbacks sys false none) in
      let restore : Run H → Run H = λ r. record r { left = persistent_restore_streams r.left } in
      ap (λ s'. restore (run callbacks p s')) start
      ∙ ap restore (run-reference callbacks p (inside callbacks sys) true (some generator))
      ∙ ap {A = Redirection H}
          (λ s'. record {
            trace = o.trace;
            raised = o.raised;
            left = record s' { stream_generator = none };
          })
          (finish_persistent callbacks sys o.streams (some generator))
