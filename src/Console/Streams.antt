-- ===== src/Console/Streams.antt =====
-- `redirect_streams` and the persistent redirection, as the code that runs inside them sees the streams.
-- Handlers are values of a type `H`; the standard library's `redirect_stdout` sets the stream of `sys` and,
-- when it is left, sets what was there before.
pub mod Laws
use pyodide.Base.{
  Text, codes, Bool, true, false, List, [], ◌∷◌, ◌++◌, Option, none, some, if◌then◌else◌,
}

pub data Which : Type 0 where
  stdin stdout stderr : Which

-- A stream of the interpreter, which may have a name, or a `_ReadStream` or `_WriteStream`.
pub data Stream (H : Type 0) : Type 0 where
  own : Option Text → Stream H
  handled : H → Text → Stream H

pub record Streams (H : Type 0) : Type 0 where
  pub stdin_stream : Stream H
  pub stdout_stream : Stream H
  pub stderr_stream : Stream H

pub record Callbacks (H : Type 0) : Type 0 where
  pub stdin_callback : Option H
  pub stdout_callback : Option H
  pub stderr_callback : Option H

-- A generator of `_stdstreams_redirections_inner` that has yielded: it found the streams redirected, or it
-- redirected the streams listed, the last one first, each with what was there before.
pub data Suspended (H : Type 0) : Type 0 where
  nested : Suspended H
  redirected : List (Which × Stream H) → Suspended H

pub record Redirection (H : Type 0) : Type 0 where
  pub sys : Streams H
  pub streams_redirected : Bool
  pub stream_generator : Option (Suspended H)

-- What code does with the streams: it uses one, sets a stream of `sys` to another, runs a block with the
-- streams redirected and goes on, ends or raises an exception.
pub data Program (H : Type 0) : Type 0 where
  finishes raises : Program H
  uses : Which → Text → Program H → Program H
  assigns : Which → Stream H → Program H → Program H
  within : Program H → Program H → Program H

-- The uses in order, each with the stream it was of; whether the program raised; and what is left.
pub record Run (H : Type 0) : Type 0 where
  pub trace : List (Stream H × Text)
  pub raised : Bool
  pub left : Redirection H

module _ {H : Type 0} where
  abbrev pub stream_of : Which → Streams H → Stream H
  stream_of stdin sys = sys.stdin_stream
  stream_of stdout sys = sys.stdout_stream
  stream_of stderr sys = sys.stderr_stream

  abbrev pub set_stream : Which → Stream H → Streams H → Streams H
  set_stream stdin stream sys = record sys { stdin_stream = stream }
  set_stream stdout stream sys = record sys { stdout_stream = stream }
  set_stream stderr stream sys = record sys { stderr_stream = stream }

  -- getattr(stream, "name", default)
  abbrev pub stream_name : Stream H → Text → Text
  stream_name (own none) default = default
  stream_name (own (some name)) default = name
  stream_name (handled handler name) default = name

  abbrev pub redirect_one : Which → Text → Option H → Streams H → List (Which × Stream H)
  redirect_one which default none sys = []
  redirect_one which default (some handler) sys =
      (which, handled handler (stream_name (stream_of which sys) default)) ∷ []

  unfoldable pub redirects_of : Callbacks H → Streams H → List (Which × Stream H)
  unfolding codes
  redirects_of callbacks sys =
      redirect_one stdin (codes "<stdin>") callbacks.stdin_callback sys
      ++ (redirect_one stdout (codes "<stdout>") callbacks.stdout_callback sys
          ++ redirect_one stderr (codes "<stderr>") callbacks.stderr_callback sys)

  -- The ExitStack enters each redirection, and leaves them in the opposite order.
  unfoldable pub enter_all :
      List (Which × Stream H)
      → List (Which × Stream H)
      → Streams H
      → List (Which × Stream H) × Streams H
  enter_all [] entered sys = (entered, sys)
  enter_all ((which, stream) ∷ redirects) entered sys =
      enter_all redirects ((which, stream_of which sys) ∷ entered) (set_stream which stream sys)

  unfoldable pub exit_all : List (Which × Stream H) → Streams H → Streams H
  exit_all [] sys = sys
  exit_all ((which, stream) ∷ entered) sys = exit_all entered (set_stream which stream sys)

  -- To the `yield`, and from it to the end.
  unfoldable pub start_inner : Callbacks H → Redirection H → Suspended H × Redirection H
  unfolding redirects_of enter_all
  start_inner callbacks s =
      let (entered, sys') = enter_all (redirects_of callbacks s.sys) [] s.sys in
      if s.streams_redirected
      then (nested, s)
      else (redirected entered, record s { streams_redirected = true; sys = sys' })

  unfoldable pub finish_inner : Suspended H → Redirection H → Redirection H
  unfolding exit_all
  finish_inner nested s = s
  finish_inner (redirected entered) s = record s {
    streams_redirected = false;
    sys = exit_all entered s.sys;
  }

  unfoldable pub persistent_redirect_streams : Callbacks H → Redirection H → Redirection H
  unfolding start_inner
  persistent_redirect_streams callbacks s = elim s.stream_generator [
    | some generator ↦ s
    | none ↦
        let (generator, s') = start_inner callbacks s in
        record s' { stream_generator = some generator }
  ]

  -- The generator is destroyed, which ends it at its `yield`.
  unfoldable pub persistent_restore_streams : Redirection H → Redirection H
  unfolding finish_inner
  persistent_restore_streams s = elim s.stream_generator [
    | none ↦ s
    | some generator ↦ record (finish_inner generator s) { stream_generator = none }
  ]

  -- `with console.redirect_streams(): body` is left in the same way if the body raises.
  unfoldable pub run : Callbacks H → Program H → Redirection H → Run H
  unfolding start_inner finish_inner
  run callbacks finishes s = record { trace = []; raised = false; left = s }
  run callbacks raises s = record { trace = []; raised = true; left = s }
  run callbacks (uses which text rest) s =
      let next = run callbacks rest s in
      record next { trace = (stream_of which s.sys, text) ∷ next.trace }
  run callbacks (assigns which stream rest) s =
      run callbacks rest (record s { sys = set_stream which stream s.sys })
  run callbacks (within body rest) s =
      let (generator, s') = start_inner callbacks s in
      let block = run callbacks body s' in
      let after = finish_inner generator block.left in
      let next = run callbacks rest after in
      if block.raised
      then record block { left = after }
      else record next { trace = block.trace ++ next.trace }
