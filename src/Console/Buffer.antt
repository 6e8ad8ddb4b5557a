-- ===== src/Console/Buffer.antt =====
-- `push` and `runsource`: the lines of a command that is not complete wait in the buffer. What the compiler
-- makes of a source is outside the model; it has a state of its own, which it passes on.
pub mod Laws
use pyodide.Base.{
  Text, Option, none, some, Bool, true, false, List, [], ◌∷◌, ◌++◌, if◌then◌else◌, Exception,
}
use pyodide.Base.Strings.Methods.{join}

pub data SyntaxCheck : Type 0 where
  incomplete syntax_error complete : SyntaxCheck

-- What `self._compile` ends with: None, an OverflowError, SyntaxError or ValueError, or code.
pub data Compiled (C : Type 0) : Type 0 where
  needs_more : Compiled C
  fails : Exception → Compiled C
  compiles : C → Compiled C

-- The future that is returned: resolved with None, rejected, or waiting for the code to end.
pub data FutureState : Type 0 where
  waiting : FutureState
  -- The result is None for a command that is not complete, or else what the code returns.
  resolved : Option Text → FutureState
  rejected : Exception → FutureState

pub record ConsoleFuture : Type 0 where
  pub syntax_check : SyntaxCheck
  pub formatted_error : Option Text
  pub state : FutureState

-- A new future, whose syntax_check is given.
abbrev pub new_future : SyntaxCheck → ConsoleFuture
new_future check = record { syntax_check = check; formatted_error = none; state = waiting }

-- `started` are the sources whose code was given to `runcode`, in order.
pub record Console (K C : Type 0) : Type 0 where
  pub buffer : List Text
  pub compiler : K
  pub started : List (Text × C)

abbrev pub is_incomplete : SyntaxCheck → Bool
is_incomplete incomplete = true
is_incomplete syntax_error = false
is_incomplete complete = false

-- What the task that runs the code ended with.
pub data Finished : Type 0 where
  returned : Option Text → Finished
  raised : Exception → Finished

-- `format_traceback` and `format_syntax` format an exception with Python's `traceback`.
unfoldable pub done_cb : (Exception → Text) → Finished → ConsoleFuture → ConsoleFuture
done_cb format_traceback (raised e) res = record res {
  formatted_error = some (format_traceback e);
  state = rejected e;
}
done_cb format_traceback (returned value) res = record res { state = resolved value }

module _ {K C : Type 0} where
  module _ (format_syntax : Exception → Text) where
    abbrev pub run_compiled : Text → Compiled C → Console K C → ConsoleFuture × Console K C
    run_compiled source needs_more s = (record (new_future incomplete) { state = resolved none }, s)
    run_compiled source (fails e) s = (
      record (new_future syntax_error) {
        formatted_error = some (format_syntax e);
        state = rejected e;
      },
      s,
    )
    run_compiled source (compiles code) s =
        (new_future complete, record s { started = s.started ++ (source, code) ∷ [] })

    module _ (compile : K → Text → Compiled C × K) where
      unfoldable pub runsource : Text → Console K C → ConsoleFuture × Console K C
      runsource source s =
          let (compiled, k) = compile s.compiler source in
          run_compiled source compiled (record s { compiler = k })

      unfoldable pub push : Text → Console K C → ConsoleFuture × Console K C
      unfolding runsource
      push line s =
          let lines = s.buffer ++ line ∷ [] in
          let (future, s') = runsource (join (10 ∷ []) lines) (record s { buffer = lines }) in
          (future, if is_incomplete future.syntax_check then s' else record s' { buffer = [] })

      -- The lines of a session.
      unfoldable pub push_all : List Text → Console K C → Console K C
      unfolding push
      push_all [] s = s
      push_all (line ∷ lines) s = push_all lines (push line s).1
