-- ===== src/Remote/Signal.antt =====
-- A signal from the service to a subscriber: `SignalEmitter::withArguments` and
-- `SignalSubscriber::makeSignalHandler` of include/sdbus-c++/ConvenienceApiClasses.inl, and
-- `Proxy::sdbus_signal_handler` of src/Proxy.cpp.
use sdbus_cpp.Prelude.{
  ℕ, ℤ, pos, negsuc, String, Bool, true, false, Option, none, some, Result, ok, throw, ◌>>=◌,
  if◌then◌else◌,
}
use sdbus_cpp.Handler.{BusError, catch_errors}
use sdbus_cpp.Message.Types.{Ty, Value, default_value}
use sdbus_cpp.Message.Api.{SdBusMessage}
use sdbus_cpp.Message.Write.{write}
use sdbus_cpp.Message.Reader.{Reader}
use sdbus_cpp.Message.Read.{read}
use sdbus_cpp.Remote.Transport.{Transport}
use sdbus_cpp.Remote.Async.{Invocation, with_results, catch_error}

-- What libsystemd's callback did with a signal: how the client's callback was invoked, if it was, and
-- the result with the error that is set.
pub record Delivery (a : Ty) : Type 0 where
  pub invoked : Option (Invocation a)
  pub result : ℤ
  pub reported : Option BusError

module _ (bus : SdBusMessage) (transport : Transport bus) where
  -- `proxy->...withArguments(args...)`: the signal that the emitter's destructor sends.
  unfoldable pub signal_with_arguments : (a : Ty) → Value a → Result bus.Msg
  signal_with_arguments a args = write bus a args transport.new_message

  -- The handler for a callback with an error parameter, or without one. It invokes the callback last.
  unfoldable pub make_signal_handler : (a : Ty) → ℕ → Bool → Reader bus → Result (Invocation a)
  unfolding catch_error
  make_signal_handler a fuel true signal =
      catch_error bus transport a (read bus a fuel (default_value a) signal)
  make_signal_handler a fuel false signal = do
    (args, end) ← read bus a fuel (default_value a) signal
    ok (with_results args)

  module _ (set_errno : ℕ → Option BusError) (append : String → String → String) (a : Ty)
      (callback : Invocation a → Result (Unit {0})) where
    -- The callback was invoked, and may have thrown.
    unfoldable pub invoke : Invocation a → Delivery a
    unfolding catch_errors
    invoke i =
        let (done, e) = catch_errors set_errno append (callback i) in
        record { invoked = some i; result = if done then pos 0 else negsuc 0; reported = e }

    unfoldable pub sdbus_signal_handler : Result (Invocation a) → Delivery a
    unfolding invoke catch_errors
    sdbus_signal_handler (ok i) = invoke i
    sdbus_signal_handler (throw e) = record {
      invoked = none;
      result = negsuc 0;
      reported = (catch_errors set_errno append (throw e)).1;
    }
