-- ===== src/Remote/Service.antt =====
-- The service's side: the handler that `MethodVTableItem::implementedAs` of
-- include/sdbus-c++/VTableItems.inl makes of a function, and `Object::sdbus_method_callback` of
-- src/Object.cpp with the messages that it sends.
use sdbus_cpp.Prelude.{ℕ, String, Option, none, some, Result, ok, throw, ◌>>=◌}
use sdbus_cpp.Handler.{BusError, catch_errors}
use sdbus_cpp.Message.Types.{Ty, Value, default_value}
use sdbus_cpp.Message.Api.{SdBusMessage}
use sdbus_cpp.Message.Write.{write}
use sdbus_cpp.Message.Reader.{Reader}
use sdbus_cpp.Message.Read.{read}
use sdbus_cpp.Object.Names.{Name}
use sdbus_cpp.Object.Items.{VTable}
use sdbus_cpp.Object.Callbacks.{find_method}
use sdbus_cpp.Remote.Transport.{Transport}

-- The reply that the client gets: a method reply, or an error reply. After a failed assertion, or an
-- exception in a thread of its own, there is none.
pub data Answer (bus : SdBusMessage) : Type 0 where
  replied : bus.Msg → Answer bus
  failed : BusError → Answer bus
  aborted : Answer bus

module _ (bus : SdBusMessage) (transport : Transport bus) where
  -- A handler gets the call and sees to its answer, at once or later.
  abbrev pub Handler : Type 0
  Handler = Reader bus → Result (Answer bus)

  -- The arguments are read, the function is applied to them, and its result is written to a reply,
  -- which is sent. `a` is the tuple of the argument types, `b` the result type.
  unfoldable pub implemented_as : (a b : Ty) → ℕ → (Value a → Result (Value b)) → Handler
  implemented_as a b fuel callback call = do
    (input_args, end) ← read bus a fuel (default_value a) call
    ret ← callback input_args
    reply ← write bus b ret transport.new_message
    ok (replied reply)

  module _ (set_errno : ℕ → Option BusError) (append : String → String → String) where
    -- invokeHandlerAndCatchErrors: the handler returned, or the error is set.
    unfoldable pub answer_of : Result (Answer bus) → Answer bus
    unfolding catch_errors
    answer_of (ok answer) = answer
    answer_of (throw e) = elim (catch_errors set_errno append (throw e)).1 [
      | none ↦ aborted
      | some error ↦ failed error
    ]

    unfoldable pub answer_by : Option Handler → Reader bus → Answer bus
    unfolding answer_of
    answer_by none call = aborted
    answer_by (some handler) call = answer_of (handler call)

    -- sdbus_method_callback for a call of that name.
    unfoldable pub serve : VTable Handler → Name → Reader bus → Answer bus
    unfolding find_method answer_by
    serve t name call = elim (find_method t name) [
      | none ↦ aborted
      | some item ↦ answer_by item.callback call
    ]
