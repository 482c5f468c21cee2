-- ===== src/Handler.antt =====
-- The boundary between the client's handlers, which throw, and libsystemd's callbacks, which return
-- an `sd_bus_error`: `invokeHandlerAndCatchErrors` of src/Utils.h, and `createError` of
-- src/Error.cpp.
use sdbus_cpp.Prelude.{
  ℕ, String, Bool, true, false, Option, none, some, ◌⊎◌, inl, inr, Result, ok, throw, Exception,
  errno_error, error, std_exception, unknown_exception, out_of_fuel, ◌≡◌, refl, if◌then◌else◌,
}
use text.Mathlib.Text.{◌==◌ as str_eq}

-- An `sd_bus_error`: its name and its message.
pub record BusError : Type 0 where
  pub name : String
  pub message : Option String

-- `sd_bus_error_set_errno` of libsystemd: the error that stands for an error number, if it is set.
module _ (set_errno : ℕ → Option BusError) (append : String → String → String) where
  unfoldable pub error_name : Option BusError → String
  error_name none = ""
  error_name (some e) = e.name

  -- The message of the exception: the custom one with libsystemd's behind it in parentheses, or
  -- libsystemd's alone.
  unfoldable pub error_message : String → Option BusError → String
  error_message custom none = custom
  error_message custom (some e) = elim e.message [
    | none ↦ custom
    | some m ↦ if str_eq custom "" then m else append custom (append " (" (append m ")"))
  ]

  -- createError
  unfoldable pub create_error : ℕ → String → Exception
  unfolding error_name error_message
  create_error number custom =
      error (error_name (set_errno number)) (error_message custom (set_errno number))

  -- The catch clauses: for sdbus::Error, for std::exception and for anything else. The flag says
  -- whether the handler returned.
  unfoldable pub catch_errors : Result (Unit {0}) → Bool × Option BusError
  unfolding error_name error_message
  catch_errors (ok _) = (true, none)
  catch_errors (throw (errno_error number custom)) = (
    false,
    some (record {
      name = error_name (set_errno number);
      message = some (error_message custom (set_errno number));
    }),
  )
  catch_errors (throw (error name message)) =
      (false, some (record { name = name; message = some message }))
  catch_errors (throw (std_exception what)) =
      (false, some (record { name = "org.sdbuscpp.Error"; message = some what }))
  catch_errors (throw _) = (
    false,
    some (record { name = "org.sdbuscpp.Error"; message = some "Unknown error occurred" }),
  )

  -- A handler's failure never goes unreported: an error is set exactly when the handler threw.
  pub catch_errors_lem :
      (r : Result (Unit {0}))
      → ((catch_errors r).0 ≡ true) × ((catch_errors r).1 ≡ none)
        ⊎ ((catch_errors r).0 ≡ false) × ((e : BusError) × ((catch_errors r).1 ≡ some e))
  unfolding catch_errors
  catch_errors_lem (ok _) = inl (refl, refl)
  catch_errors_lem (throw (errno_error n what)) = inr (refl, (_, refl))
  catch_errors_lem (throw (error n m)) = inr (refl, (_, refl))
  catch_errors_lem (throw (std_exception what)) = inr (refl, (_, refl))
  catch_errors_lem (throw unknown_exception) = inr (refl, (_, refl))
  catch_errors_lem (throw out_of_fuel) = inr (refl, (_, refl))
