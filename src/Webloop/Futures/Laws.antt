-- ===== src/Webloop/Futures/Laws.antt =====
-- The new future of `then`, `catch` and `finally_`, against what promises do.
use pyodide.Base.{
  ◌≡◌, refl, sym, ap, ◌∙◌, ◌⊎◌, inl, inr, Bool, true, Option, none, some, arith, if◌then◌else◌,
}
use mathlib.Core.Option
use pyodide.Webloop.Raised.{Raised, is_exception}
use pyodide.Webloop.Futures.{
  Done, result, exception, cancelled, Returned, value, awaitable, Ending, returns, raises, Callback,
  Derived, resolved, rejected, never, await_returned, await_ending, or_raise, or_identity,
  then_callback, finally_callback, after_finally, passed_on,
}

-- The next `then` on a future that another one has made: it waits as long as that is pending.
abbrev pub chained : {V : Type 0} → Derived V → (Done V → Derived V) → Derived V
chained (resolved v) next = next (result v)
chained (rejected x) next = next (exception x)
chained never next = never

-- A callback after another, within one `then`.
unfoldable mutual
  pub followed_returned : {V : Type 0} → Returned V → Callback V V → Ending V
  followed_returned (value v) g = g v
  followed_returned (awaitable e) g = returns (awaitable (followed e g))

  pub followed : {V : Type 0} → Ending V → Callback V V → Ending V
  followed (returns r) g = followed_returned r g
  followed (raises x) g = raises x

mutual
  unfolding await_ending await_returned followed followed_returned then_callback

  returned_followed :
      {V : Type 0} (r : Returned V) (g : Callback V V)
      → await_ending (followed_returned r g)
        ≡ chained (await_returned r) (then_callback (some g) none)
  returned_followed (value v) g = refl
  returned_followed (awaitable e) g = ending_followed e g

  ending_followed :
      {V : Type 0} (e : Ending V) (g : Callback V V)
      → await_ending (followed e g) ≡ chained (await_ending e) (then_callback (some g) none)
  ending_followed (returns r) g = returned_followed r g
  ending_followed (raises x) g = ground arith

-- Promises compose: two calls of `then` with a callback for results do what one call does with the second
-- callback after the first, whether the source has a result, an exception, or is cancelled.
pub then_callback_assoc :
    {V : Type 0} (f g : Callback V V) (d : Done V)
    → chained (then_callback (some f) none d) (then_callback (some g) none)
      ≡ then_callback (some (λ v. followed (f v) g)) none d
unfolding then_callback await_ending
then_callback_assoc f g (result v) = sym (ending_followed (f v) g)
then_callback_assoc f g (exception x) = ground arith
then_callback_assoc f g cancelled = refl

-- The exception of a future is an `Exception`.
abbrev pub is_ordinary : {V : Type 0} → Done V → Bool
is_ordinary (result v) = true
is_ordinary (exception x) = is_exception x
is_ordinary cancelled = true

-- `onfinally`, with what it returns replaced.
unfoldable mutual
  pub replaced_returned : {V W : Type 0} → Returned W → Ending V → Ending V
  replaced_returned (value v) e = e
  replaced_returned (awaitable a) e = returns (awaitable (replaced a e))

  pub replaced : {V W : Type 0} → Ending W → Ending V → Ending V
  replaced (returns r) e = replaced_returned r e
  replaced (raises x) e = raises x

abbrev after : {V W : Type 0} → Derived W → Derived V → Derived V
after (resolved w) d = d
after (rejected x) d = rejected x
after never d = never

mutual
  unfolding await_ending await_returned replaced replaced_returned

  returned_replaced :
      {V W : Type 0} (r : Returned W) (e : Ending V)
      → await_ending (replaced_returned r e) ≡ after (await_returned r) (await_ending e)
  returned_replaced (value v) e = refl
  returned_replaced (awaitable a) e = ending_replaced a e

  ending_replaced :
      {V W : Type 0} (h : Ending W) (e : Ending V)
      → await_ending (replaced h e) ≡ after (await_ending h) (await_ending e)
  ending_replaced (returns r) e = returned_replaced r e
  ending_replaced (raises x) e = ground arith

after_finally-eq :
    {V W : Type 0} (d : Done V) (t : Derived W) → after_finally d t ≡ after t (passed_on d)
after_finally-eq d (resolved w) = refl
after_finally-eq d (rejected x) = refl
after_finally-eq d never = refl

raise-eq :
    {V : Type 0} (x : Raised) → is_exception x ≡ true → rejected x ≡ await_ending {V = V} (raises x)
unfolding await_ending
raise-eq x h = ground arith

-- On a source with a result or an `Exception`, or a cancelled one, `finally_` is the `then` whose callbacks
-- await `onfinally` and then return the result or raise the exception again.
pub finally_callback-eq :
    {V W : Type 0} (onfinally : Ending W) (d : Done V)
    → is_ordinary d ≡ true
    → finally_callback onfinally d
      ≡ then_callback
          (some (λ v. replaced onfinally (returns (value v))))
          (some (λ x. replaced onfinally (raises x)))
          d
unfolding finally_callback then_callback await_ending await_returned
finally_callback-eq onfinally (result v) h =
    after_finally-eq (result v) (await_ending onfinally)
    ∙ sym (ending_replaced onfinally (returns (value v)))
finally_callback-eq onfinally (exception x) h =
    after_finally-eq (exception x) (await_ending onfinally)
    ∙ (ap (after (await_ending onfinally)) (raise-eq x h)
        ∙ sym (ending_replaced onfinally (raises x)))
finally_callback-eq onfinally cancelled h = refl

-- What awaiting comes to in the end.
unfoldable mutual
  pub last_returned : {V : Type 0} → Returned V → V ⊎ Raised
  last_returned (value v) = inl v
  last_returned (awaitable e) = last e

  pub last : {V : Type 0} → Ending V → V ⊎ Raised
  last (returns r) = last_returned r
  last (raises x) = inr x

-- The callback that is called, if the source is not cancelled.
abbrev pub called :
    {V : Type 0} → Option (Callback V V) → Option (Callback Raised V) → Done V → Option (Ending V)
called f r (result v) = some (or_identity f v)
called f r (exception x) = some (or_raise r x)
called f r cancelled = none

-- Of how the callback ends, and of a cancelled source, the end of the new future.
abbrev pub promised : {V : Type 0} → Option (V ⊎ Raised) → Derived V
promised none = never
promised (some (inl v)) = resolved v
promised (some (inr x)) = if is_exception x then rejected x else never

mutual
  unfolding await_ending await_returned last last_returned

  returned_promised :
      {V : Type 0} (r : Returned V) → await_returned r ≡ promised (some (last_returned r))
  returned_promised (value v) = refl
  returned_promised (awaitable e) = ending_promised e

  ending_promised : {V : Type 0} (e : Ending V) → await_ending e ≡ promised (some (last e))
  ending_promised (returns r) = returned_promised r
  ending_promised (raises x) = ground arith

-- The new future of `then` gets the value or the `Exception` that awaiting the callback comes to in the
-- end; it stays pending for ever exactly if the source is cancelled or that is no `Exception`.
pub then_callback-promised :
    {V : Type 0} (f : Option (Callback V V)) (r : Option (Callback Raised V)) (d : Done V)
    → (then_callback f r d ≡ promised (Option.map last (called f r d)))
unfolding then_callback
then_callback-promised f r (result v) = ending_promised (or_identity f v)
then_callback-promised f r (exception x) = ending_promised (or_raise r x)
then_callback-promised f r cancelled = refl
