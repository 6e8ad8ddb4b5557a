-- ===== src/Base/Outcome.antt =====
-- A call returns a value or raises; the exceptions are those that the modelled code raises.
use Prim.Native.Nat.{ℕ}
use mathlib.Core.Path.{◌≡◌, refl}
use mathlib.Core.Logic.{◌⊎◌, inl, inr}
use mathlib.Core.Bool.{Bool, true, false}
use pyodide.Base.Strings.{Text}

pub data Exception : Type 0 where
  assertion_error index_error cycle_error recursion_error : Exception
  -- A bound on a loop's rounds, which is the model's own, is used up.
  no_fuel : Exception
  key_error value_error runtime_error type_error syntax_error token_error attribute_error os_error :
      Text → Exception
  -- sys.exit(code)
  system_exit : ℕ → Exception
  build_error : ℕ → Text → Exception

pub data Result {ℓ} (A : Type ℓ) : Type ℓ where
  ok : A → Result A
  err : Exception → Result A

infixl 5 ◌>>◌ ◌>>=◌
abbrev pub ◌>>=◌ {ℓ κ} : {A : Type ℓ} → {B : Type κ} → Result A → (A → Result B) → Result B
ok value >>= rest = rest value
err raised >>= rest = err raised

abbrev pub ◌>>◌ {ℓ} : {B : Type ℓ} → Result (Unit {0}) → Result B → Result B
first >> second = first >>= λ _. second

abbrev pub raise_if : Bool → Exception → Result (Unit {0})
raise_if true x = err x
raise_if false x = ok tt

abbrev pub assert : Bool → Result (Unit {0})
assert true = ok tt
assert false = err Exception.assertion_error

-- What `subprocess.run` returns.
pub record Completed : Type 0 where
  pub returncode : ℕ
  pub stdout : Text
  pub stderr : Text

-- The call returns, and what it returns has the property.
abbrev pub Ensures {ℓ} : {A : Type ℓ} → (A → Type 0) → Result A → Type 0
Ensures P (ok a) = P a
Ensures P (err x) = ⊥

pub Ensures-bind {ℓ κ} :
    {A : Type ℓ} {B : Type κ} (P : A → Type 0) (Q : B → Type 0) (m : Result A) (f : A → Result B)
    → Ensures P m
    → ((a : A) → P a → Ensures Q (f a))
    → Ensures Q (m >>= f)
Ensures-bind P Q (ok a) f h k = k a h
Ensures-bind P Q (err x) f h k = absurd h

pub Ensures-ok {ℓ} :
    {A : Type ℓ} (P : A → Type 0) (m : Result A) → Ensures P m → (a : A) × (m ≡ ok a) × P a
Ensures-ok P (ok a) h = (a, refl, h)
Ensures-ok P (err x) h = absurd h

-- A chain that returns has returned at its first call.
pub bind-ok_inv {ℓ κ} :
    {A : Type ℓ} {B : Type κ} (m : Result A) (f : A → Result B) (b : B)
    → (m >>= f) ≡ ok b
    → (a : A) × (m ≡ ok a) × (f a ≡ ok b)
bind-ok_inv (ok a) f b h = (a, refl, h)
bind-ok_inv (err x) f b h = cc

pub bind-ok {ℓ} : {A : Type ℓ} (m : Result A) → (m >>= λ a. ok a) ≡ m
bind-ok (ok a) = refl
bind-ok (err x) = refl

pub Result-cases {ℓ} :
    {A : Type ℓ} (m : Result A) → ((a : A) × (m ≡ ok a)) ⊎ ((x : Exception) × (m ≡ err x))
Result-cases (ok a) = inl (a, refl)
Result-cases (err x) = inr (x, refl)
