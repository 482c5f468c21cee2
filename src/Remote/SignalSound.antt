-- ===== src/Remote/SignalSound.antt =====
-- What a subscriber gets of a signal.
use sdbus_cpp.Prelude.{
  ℕ, negsuc, String, Bool, true, false, Option, none, some, Result, ok, throw, Exception,
  errno_error, error, std_exception, unknown_exception, out_of_fuel, ◌≡◌, ◌≢◌, refl, subst,
}
use sdbus_cpp.Handler.{BusError, catch_errors}
use sdbus_cpp.Message.Types.{Ty, Value, default_value}
use sdbus_cpp.Message.Api.{SdBusMessage, AppendLaws, ReadLaws}
use sdbus_cpp.Message.Reader.{Reader}
use sdbus_cpp.Message.Read.{read}
use sdbus_cpp.Message.ReadArrays.{Readable}
use sdbus_cpp.Message.Raises.{Raises, read-Safe}
use sdbus_cpp.Remote.Transport.{Transport, TransportLaws}
use sdbus_cpp.Remote.Async.{Invocation, with_results, with_error, catch_error}
use sdbus_cpp.Remote.Call.{transmit}
use sdbus_cpp.Remote.Signal.{
  Delivery, signal_with_arguments, make_signal_handler, invoke, sdbus_signal_handler,
}

module _ (bus : SdBusMessage) (transport : Transport bus) (set_errno : ℕ → Option BusError)
    (append : String → String → String) (a : Ty) (callback : Invocation a → Result (Unit {0}))
    (fuel : ℕ) where
  -- The whole of what happens to a signal where it arrives.
  abbrev pub arrive : Bool → Reader bus → Delivery a
  arrive has_error_param signal =
      sdbus_signal_handler bus transport set_errno append a callback
        (make_signal_handler bus transport a fuel has_error_param signal)

  abbrev pub invoked_with : Invocation a → Delivery a
  invoked_with = invoke bus transport set_errno append a callback

  arrive-ok :
      (has_error_param : Bool) (signal s : Reader bus) (x : Value a)
      → read bus a fuel (default_value a) signal ≡ ok (x, s)
      → arrive has_error_param signal ≡ invoked_with (with_results x)
  unfolding sdbus_signal_handler make_signal_handler catch_error
  arrive-ok true signal s x e = rw (e, catch_error) refl
  arrive-ok false signal s x e = rw e refl

  arrive-throw :
      (signal : Reader bus) (e : Exception)
      → Raises {A = Value a × Reader bus} (throw e)
      → read bus a fuel (default_value a) signal ≡ throw e
      → e ≢ out_of_fuel
      → (arrive true signal ≡ invoked_with (with_error e))
        × ((arrive false signal).invoked ≡ none)
        × ((arrive false signal).result ≡ negsuc 0)
        × ((b : BusError) × ((arrive false signal).reported ≡ some b))
  unfolding sdbus_signal_handler make_signal_handler catch_error catch_errors Raises
  arrive-throw signal (errno_error number what) raised thrown enough =
      rw (thrown, catch_error) (refl, refl, refl, (_, refl))
  arrive-throw signal (error name message) raised thrown enough = absurd raised
  arrive-throw signal (std_exception what) raised thrown enough = absurd raised
  arrive-throw signal unknown_exception raised thrown enough = absurd raised
  arrive-throw signal out_of_fuel raised thrown enough = absurd (enough refl)

  -- A signal that a subscriber cannot read never invokes a callback with results: a callback that
  -- takes an error is invoked with the exception of the reading; one that does not is not invoked,
  -- and libsystemd gets -1 and an error. The loops over elements have enough fuel.
  pub unreadable_lem :
      (signal : Reader bus) (e : Exception)
      → read bus a fuel (default_value a) signal ≡ throw e
      → e ≢ out_of_fuel
      → (arrive true signal ≡ invoked_with (with_error e))
        × ((arrive false signal).invoked ≡ none)
        × ((arrive false signal).result ≡ negsuc 0)
        × ((b : BusError) × ((arrive false signal).reported ≡ some b))
  unreadable_lem signal e thrown enough =
      arrive-throw signal e (subst Raises thrown (read-Safe bus a fuel (default_value a) signal))
        thrown enough

-- A signal whose arguments could be written invokes each subscriber's callback once with the
-- arguments that it was emitted with, with or without an error parameter, whatever the callback does
-- then. The loops over elements have enough fuel, the variants in the arguments hold values, and no
-- array in them has elements without a signature.
pub signal_lem :
    (bus : SdBusMessage) (append_laws : AppendLaws bus) (read_laws : ReadLaws bus)
    (transport : Transport bus) (laws : TransportLaws bus append_laws read_laws transport)
    (set_errno : ℕ → Option BusError) (append : String → String → String) (a : Ty)
    (callback : Invocation a → Result (Unit {0})) (fuel : ℕ) (args : Value a)
    (has_error_param : Bool) (m : bus.Msg)
    → Readable fuel a args
    → signal_with_arguments bus transport a args ≡ ok m
    → arrive bus transport set_errno append a callback fuel has_error_param (transport.deliver m)
      ≡ invoked_with bus transport set_errno append a callback fuel (with_results args)
unfolding signal_with_arguments
signal_lem bus append_laws read_laws transport laws set_errno append a callback fuel args
      has_error_param m h written =
    let (s, arrived) = transmit bus append_laws read_laws transport laws a fuel args m h written in
    arrive-ok bus transport set_errno append a callback fuel has_error_param (transport.deliver m) s
      args arrived
