-- ===== src/Remote/Client.antt =====
-- The client's side: `MethodInvoker::withArguments` and `storeResultsTo` of
-- include/sdbus-c++/ConvenienceApiClasses.inl, over `Connection::callMethod` of src/Connection.cpp.
use sdbus_cpp.Prelude.{ℕ, String, Option, none, some, Result, ok, throw, Exception, error, ◌>>=◌}
use sdbus_cpp.Message.Types.{Ty, Value, default_value}
use sdbus_cpp.Message.Api.{SdBusMessage}
use sdbus_cpp.Message.Write.{write}
use sdbus_cpp.Message.Reader.{Reader}
use sdbus_cpp.Message.Read.{read}
use sdbus_cpp.Remote.Transport.{Transport}
use sdbus_cpp.Remote.Service.{Answer, replied, failed, aborted}

-- An sd_bus_error without a message has an empty one.
abbrev pub text_of : Option String → String
text_of none = ""
text_of (some text) = text

module _ (bus : SdBusMessage) (transport : Transport bus) where
  -- An error reply is thrown, with its name and its message. What a call to a service that is gone
  -- throws is libsystemd's.
  unfoldable pub call_for_reply : Exception → Answer bus → Result (Reader bus)
  call_for_reply disconnected (replied reply) = ok (transport.deliver reply)
  call_for_reply disconnected (failed e) = throw (error e.name (text_of e.message))
  call_for_reply disconnected aborted = throw disconnected

  -- The second half of storeResultsTo: `deserialize_pack` of the reply.
  abbrev pub receive : (b : Ty) → ℕ → Exception → Answer bus → Result (Value b)
  receive b fuel disconnected answer = do
    reply ← call_for_reply disconnected answer
    (results, end) ← read bus b fuel (default_value b) reply
    ok results

  -- `proxy->callMethod(...).onInterface(...).withArguments(args...).storeResultsTo(results...)`
  unfoldable pub store_results_to :
      (a b : Ty) → ℕ → Exception → (Reader bus → Answer bus) → Value a → Result (Value b)
  unfolding call_for_reply
  store_results_to a b fuel disconnected service args = do
    method ← write bus a args transport.new_message
    receive b fuel disconnected (service (transport.deliver method))
