-- ===== src/Remote/Async.antt =====
-- Asynchronous methods, on both sides: `Result::returnResults` and `returnError` of
-- include/sdbus-c++/MethodResult.h with the asynchronous branch of `implementedAs`
-- (include/sdbus-c++/VTableItems.inl); and `makeAsyncReplyHandler` and `getResultAsFuture` of
-- include/sdbus-c++/ConvenienceApiClasses.inl over `Proxy::sdbus_async_reply_handler`
-- (src/Proxy.cpp).
use sdbus_cpp.Prelude.{
  ℕ, String, some, Result, ok, throw, Exception, errno_error, error, std_exception, ◌>>=◌,
}
use sdbus_cpp.Handler.{BusError}
use sdbus_cpp.Message.Types.{Ty, Value, default_value}
use sdbus_cpp.Message.Api.{SdBusMessage}
use sdbus_cpp.Message.Write.{write}
use sdbus_cpp.Message.Reader.{Reader}
use sdbus_cpp.Message.Read.{read}
use sdbus_cpp.Remote.Transport.{Transport}
use sdbus_cpp.Remote.Service.{Answer, replied, failed, aborted, Handler}
use sdbus_cpp.Remote.Client.{text_of}

-- What the service's function does with the `Result` object, then or later, in any thread.
pub data Completion (b : Ty) : Type 0 where
  return_results : Value b → Completion b
  return_error : (name message : String) → Completion b

-- How the client's callback is invoked: with the results, or with an error. The results that it gets
-- beside an error are not modelled.
pub data Invocation (b : Ty) : Type 0 where
  with_results : Value b → Invocation b
  with_error : Exception → Invocation b

module _ (bus : SdBusMessage) (transport : Transport bus) where
  -- An exception from `returnResults` goes to its caller, and nothing is sent.
  unfoldable pub sent_results : Result bus.Msg → Answer bus
  sent_results (ok reply) = replied reply
  sent_results (throw e) = aborted

  unfoldable pub complete : (b : Ty) → Completion b → Answer bus
  unfolding sent_results
  complete b (return_results x) = sent_results (write bus b x transport.new_message)
  complete b (return_error name message) = failed (record { name = name; message = some message })

  -- `implementedAs` for a function that takes a `Result` object: the arguments are read, and the
  -- function gets the object with the call in it.
  unfoldable pub implemented_as_async :
      (a b : Ty) → ℕ → (Value a → Completion b) → Handler bus transport
  unfolding complete
  implemented_as_async a b fuel callback call = do
    (input_args, end) ← read bus a fuel (default_value a) call
    ok (complete b (callback input_args))

  -- `catch (const Error& err)` around the reading of the results.
  unfoldable pub catch_error : (b : Ty) → Result (Value b × Reader bus) → Result (Invocation b)
  catch_error b (ok (args, end)) = ok (with_results args)
  catch_error b (throw (errno_error number what)) = ok (with_error (errno_error number what))
  catch_error b (throw (error name message)) = ok (with_error (error name message))
  catch_error b (throw e) = throw e

  -- sdbus_async_reply_handler with the handler that makeAsyncReplyHandler makes. For a call that is
  -- never answered, libsystemd makes an error reply of its own.
  unfoldable pub async_reply : (b : Ty) → ℕ → BusError → Answer bus → Result (Invocation b)
  unfolding catch_error
  async_reply b fuel lost (replied reply) =
      catch_error b (read bus b fuel (default_value b) (transport.deliver reply))
  async_reply b fuel lost (failed e) = ok (with_error (error e.name (text_of e.message)))
  async_reply b fuel lost aborted = ok (with_error (error lost.name (text_of lost.message)))

  -- What the future gives: the callback of getResultAsFuture sets it. When it is not invoked, the
  -- promise is destroyed with it.
  unfoldable pub future_get : (b : Ty) → Result (Invocation b) → Result (Value b)
  future_get b (ok (with_results x)) = ok x
  future_get b (ok (with_error e)) = throw e
  future_get b (throw e) = throw (std_exception "std::future_error: Broken promise")

  -- `proxy->callMethodAsync(...).onInterface(...).withArguments(args...).getResultAsFuture()`: the
  -- statement's result is the future, of which this is what its `get` does.
  unfoldable pub get_result_as_future :
      (a b : Ty) → ℕ → BusError → (Reader bus → Answer bus) → Value a → Result (Result (Value b))
  unfolding async_reply future_get
  get_result_as_future a b fuel lost service args = do
    method ← write bus a args transport.new_message
    ok (future_get b (async_reply b fuel lost (service (transport.deliver method))))
