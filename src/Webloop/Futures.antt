-- ===== src/Webloop/Futures.antt =====
-- `PyodideFuture`: then, catch and finally_. A future that is done has a result, an exception, or is
-- cancelled. What a callback returns is a value or an awaitable, whose end awaiting it brings about.
pub mod Laws
use pyodide.Base.{Option, none, some, if◌then◌else◌}
use pyodide.Webloop.Raised.{Raised, is_exception, cancelled_error}

module _ (V : Type 0) where
  -- How a future ends.
  pub data Done : Type 0 where
    result : V → Done
    exception : Raised → Done
    cancelled : Done

  -- What a call or an `await` ends with. Each `await` of the loop brings the next one.
  mutual
    pub data Returned : Type 0 where
      value : V → Returned
      awaitable : Ending → Returned

    pub data Ending : Type 0 where
      returns : Returned → Ending
      raises : Raised → Ending

abbrev pub Callback : Type 0 → Type 0 → Type 0
Callback A V = A → Ending V

-- The end of the new future; `never` if `callback` itself ends by an exception that it does not catch,
-- and the new future stays pending.
pub data Derived (V : Type 0) : Type 0 where
  resolved : V → Derived V
  rejected : Raised → Derived V
  never : Derived V

-- What is raised in the body of the `try`.
unfoldable pub caught : {V : Type 0} → Raised → Derived V
caught x = if is_exception x then rejected x else never

-- while inspect.isawaitable(r): r = await r
unfoldable mutual
  unfolding caught

  pub await_returned : {V : Type 0} → Returned V → Derived V
  await_returned (value v) = resolved v
  await_returned (awaitable e) = await_ending e

  pub await_ending : {V : Type 0} → Ending V → Derived V
  await_ending (returns r) = await_returned r
  await_ending (raises x) = caught x

-- def onfulfilled_(x): return x
abbrev pub or_identity : {V : Type 0} → Option (Callback V V) → Callback V V
or_identity none v = returns (value v)
or_identity (some f) v = f v

-- def onrejected_(x): raise x
abbrev pub or_raise : {V : Type 0} → Option (Callback Raised V) → Callback Raised V
or_raise none x = raises x
or_raise (some f) x = f x

-- `callback` of `then`; `fut.exception()` raises on a cancelled future, before the `try`.
unfoldable pub then_callback :
    {V : Type 0} → Option (Callback V V) → Option (Callback Raised V) → Done V → Derived V
unfolding await_ending await_returned
then_callback onfulfilled onrejected (result v) = await_ending (or_identity onfulfilled v)
then_callback onfulfilled onrejected (exception x) = await_ending (or_raise onrejected x)
then_callback onfulfilled onrejected cancelled = never

-- self.then(None, onrejected)
unfoldable pub catch_callback : {V : Type 0} → Callback Raised V → Done V → Derived V
unfolding then_callback
catch_callback onrejected d = then_callback none (some onrejected) d

-- The end of the source, once `onfinally` has ended well.
abbrev pub passed_on : {V : Type 0} → Done V → Derived V
passed_on (result v) = resolved v
passed_on (exception x) = rejected x
passed_on cancelled = never

abbrev pub after_finally : {V W : Type 0} → Done V → Derived W → Derived V
after_finally d (resolved w) = passed_on d
after_finally d (rejected x) = rejected x
after_finally d never = never

-- `callback` of `finally_`.
unfoldable pub finally_callback : {V W : Type 0} → Ending W → Done V → Derived V
unfolding await_ending await_returned
finally_callback onfinally cancelled = never
finally_callback onfinally (result v) = after_finally (result v) (await_ending onfinally)
finally_callback onfinally (exception x) = after_finally (exception x) (await_ending onfinally)
