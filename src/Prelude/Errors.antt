-- ===== src/Prelude/Errors.antt =====
-- Exceptions as values. `errno_error n what` is the exception of `createError(n, what)`
-- (src/Error.cpp), whose D-Bus name libsystemd derives from the error number; `error name message`
-- is an exception whose name is given. `out_of_fuel` has no counterpart in the program: a loop of a
-- model ends so when its bound on the number of rounds was too small.
use mathlib.Core.Path.{◌≡◌, refl}
use mathlib.Core.Bool.{Bool, true, false}
use Prim.Native.Nat.{ℕ}
use Prim.Native.String.{String}

pub data Exception : Type 0 where
  errno_error : ℕ → String → Exception
  error : String → String → Exception
  std_exception : String → Exception
  unknown_exception : Exception
  out_of_fuel : Exception

pub data Result {ℓ} (A : Type ℓ) : Type ℓ where
  ok : A → Result A
  throw : Exception → Result A

-- The next statement runs on the value of the one before it, unless that one threw.
module _ {ℓ κ} {A : Type ℓ} {B : Type κ} where
  infixl 5 ◌>>=◌
  abbrev pub ◌>>=◌ : Result A → (A → Result B) → Result B
  throw thrown >>= next = throw thrown
  ok value >>= next = next value

  -- A sequence that returned is one in which both statements did.
  pub >>=-eq-ok :
      (first : Result A) (next : A → Result B) {last : B}
      → (first >>= next) ≡ ok last
      → (value : A) × (first ≡ ok value) × (next value ≡ ok last)
  >>=-eq-ok (throw thrown) next returned = cc
  >>=-eq-ok (ok value) next returned = (value, refl, returned)

-- A statement without a value, and the next.
infixl 5 ◌>>◌
abbrev pub ◌>>◌ {ℓ} : {B : Type ℓ} → Result (Unit {0}) → Result B → Result B
statement >> next = statement >>= λ nothing. next

-- SDBUS_THROW_ERROR_IF(condition, what, number)
abbrev pub throw_error_if : Bool → String → ℕ → Result (Unit {0})
throw_error_if false what number = ok tt
throw_error_if true what number = throw (errno_error number what)
