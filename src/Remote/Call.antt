-- ===== src/Remote/Call.antt =====
-- A call over the bus gives what the function gives.
use sdbus_cpp.Prelude.{
  ℕ, String, Bool, Option, some, some-cancel, List, Result, ok, throw, Exception, errno_error,
  error, std_exception, unknown_exception, out_of_fuel, ◌>>=◌, ◌≡◌, refl, sym, ap, ◌∙◌,
}
use sdbus_cpp.Handler.{BusError, create_error}
use sdbus_cpp.Message.Types.{Ty, Value, default_value}
use sdbus_cpp.Message.Api.{SdBusMessage, AppendLaws, ReadLaws}
use sdbus_cpp.Message.Write.{write}
use sdbus_cpp.Message.Reader.{Reader}
use sdbus_cpp.Message.Read.{read}
use sdbus_cpp.Message.ReadArrays.{Readable}
use sdbus_cpp.Message.RoundTrip.{write-read}
use sdbus_cpp.Object.Names.{Name}
use sdbus_cpp.Object.Search.{Contains}
use sdbus_cpp.Object.Items.{MethodVTableItem, VTableItem, method, MethodItem, VTable}
use sdbus_cpp.Object.Register.{create_internal_vtable}
use sdbus_cpp.Object.Callbacks.{find_method}
use sdbus_cpp.Object.Dispatch.{find_method_lem}
use sdbus_cpp.Remote.Transport.{Transport, TransportLaws}
use sdbus_cpp.Remote.Service.{Answer, replied, Handler, implemented_as, answer_of, answer_by, serve}
use sdbus_cpp.Remote.Client.{call_for_reply, receive, store_results_to}

-- What a client sees of an outcome: a result as it is, an exception by its D-Bus name and message.
unfoldable pub on_bus :
    {A : Type 0} (set_errno : ℕ → Option BusError) (append : String → String → String)
    → Result A
    → Result A
unfolding create_error
on_bus set_errno append (ok a) = ok a
on_bus set_errno append (throw (error name message)) = throw (error name message)
on_bus set_errno append (throw (errno_error number what)) =
    throw (create_error set_errno append number what)
on_bus set_errno append (throw (std_exception what)) = throw (error "org.sdbuscpp.Error" what)
on_bus set_errno append (throw _) = throw (error "org.sdbuscpp.Error" "Unknown error occurred")

-- What a message can carry of a value: the value, or the exception that writing it throws.
unfoldable pub as_sent :
    (bus : SdBusMessage) (transport : Transport bus) (t : Ty) → Value t → Result (Value t)
as_sent bus transport t x = write bus t x transport.new_message >>= λ m. ok x

module _ (bus : SdBusMessage) (append_laws : AppendLaws bus) (read_laws : ReadLaws bus)
    (transport : Transport bus) (laws : TransportLaws bus append_laws read_laws transport) where
  -- What is written to a new message is read from it where it arrives.
  pub transmit :
      (t : Ty) (fuel : ℕ) (x : Value t) (m : bus.Msg)
      → Readable fuel t x
      → write bus t x transport.new_message ≡ ok m
      → (s : Reader bus) × (read bus t fuel (default_value t) (transport.deliver m) ≡ ok (x, s))
  transmit t fuel x m h written =
      let (s, done, _) =
        write-read bus append_laws read_laws t fuel x transport.new_message (transport.deliver m)
          laws.new_empty written (laws.delivered m) (laws.delivered_valid m) h in
      (s, done)

  module _ (set_errno : ℕ → Option BusError) (append : String → String → String)
      (disconnected : Exception) (a b : Ty) (fuel : ℕ) where
    -- The reply with a result gives the client that result.
    pub received :
        (x : Value b) (m : bus.Msg)
        → Readable fuel b x
        → write bus b x transport.new_message ≡ ok m
        → receive bus transport b fuel disconnected (replied m) ≡ ok x
    unfolding call_for_reply
    received x m h written =
        let (s, arrived) = transmit b fuel x m h written in rw (call_for_reply, arrived) refl

    -- An exception of the handler arrives.
    pub refused :
        (e : Exception)
        → receive bus transport b fuel disconnected
            (answer_of bus transport set_errno append (throw e))
          ≡ on_bus set_errno append (throw e)
    unfolding answer_of on_bus call_for_reply
    refused (errno_error number what) = refl
    refused (error name message) = refl
    refused (std_exception what) = refl
    refused unknown_exception = refl
    refused out_of_fuel = refl

    -- A result is answered by a reply, or by the exception of writing it.
    replies :
        (x : Value b) (w : Result bus.Msg)
        → write bus b x transport.new_message ≡ w
        → Readable fuel b x
        → receive bus transport b fuel disconnected
            (answer_of bus transport set_errno append (w >>= λ reply. ok (replied reply)))
          ≡ on_bus set_errno append (w >>= λ m. ok x)
    unfolding on_bus answer_of
    replies x (ok m) written h = received x m h written
    replies x (throw e) written h = refused e

    answered :
        (r : Result (Value b))
        → ((x : Value b) → r ≡ ok x → Readable fuel b x)
        → receive bus transport b fuel disconnected (
            answer_of bus transport set_errno append
              (r >>= λ ret. write bus b ret transport.new_message >>= λ reply. ok (replied reply)))
          ≡ on_bus set_errno append (r >>= as_sent bus transport b)
    unfolding on_bus as_sent
    answered (ok x) readable =
        replies x (write bus b x transport.new_message) refl (readable x refl)
    answered (throw e) readable = refused e

    -- A service that answers by a handler which reads the arguments and goes on with them.
    pub served_call :
        (service : Reader bus → Answer bus) (h : Handler bus transport)
        (go_on : Value a → Result (Answer bus)) (args : Value a) (m : bus.Msg)
        → ((call : Reader bus) → service call ≡ answer_of bus transport set_errno append (h call))
        → ((call : Reader bus)
            → h call ≡ (read bus a fuel (default_value a) call >>= λ (input, end). go_on input))
        → Readable fuel a args
        → write bus a args transport.new_message ≡ ok m
        → service (transport.deliver m) ≡ answer_of bus transport set_errno append (go_on args)
    served_call service h go_on args m serves handles readable written =
        let (s, arrived) = transmit a fuel args m readable written in
        let handled : h (transport.deliver m) ≡ go_on args =
          handles (transport.deliver m) ∙ rw arrived refl in
        serves (transport.deliver m) ∙ ap (answer_of bus transport set_errno append) handled

    -- The whole call, where the arguments could be written or not.
    called_with :
        (service : Reader bus → Answer bus) (go_on : Value a → Result (Answer bus)) (args : Value a)
        (outcome : Result (Value b)) (w : Result bus.Msg)
        → write bus a args transport.new_message ≡ w
        → ((m : bus.Msg)
            → write bus a args transport.new_message ≡ ok m
            → receive bus transport b fuel disconnected (service (transport.deliver m)) ≡ outcome)
        → (w >>= λ m. receive bus transport b fuel disconnected (service (transport.deliver m)))
          ≡ ((w >>= λ m. ok args) >>= λ x. outcome)
    called_with service go_on args outcome (ok m) written answers = answers m written
    called_with service go_on args outcome (throw e) written answers = refl

    found_answers :
        (t : VTable (Handler bus transport)) (name : Name) (y : MethodItem (Handler bus transport))
        (h : Handler bus transport)
        → find_method t name ≡ some y
        → y.callback ≡ some h
        → (call : Reader bus)
        → serve bus transport set_errno append t name call
          ≡ answer_of bus transport set_errno append (h call)
    unfolding serve answer_by
    found_answers t name y h found handled call = rw (serve, found, handled, answer_by) refl

    -- A call of a registered method is answered by its handler.
    pub serve_lem :
        (valid_member : Name → Bool) (interface : Name)
        (xs : List (VTableItem (Handler bus transport))) (t : VTable (Handler bus transport))
        (m : MethodVTableItem (Handler bus transport)) (g : Handler bus transport)
        → create_internal_vtable valid_member interface xs ≡ ok t
        → Contains (method m) xs
        → m.callback_handler ≡ some g
        → ((k : MethodVTableItem (Handler bus transport))
            → Contains (method k) xs
            → k.name ≡ m.name
            → k ≡ m)
        → (call : Reader bus)
        → serve bus transport set_errno append t m.name call
          ≡ answer_of bus transport set_errno append (g call)
    serve_lem valid_member interface xs t m g made at handler only =
        let (k, h, y, kin, named, hk, found, handled) =
          find_method_lem valid_member interface xs t m made at in
        let same : h ≡ g = some-cancel (
          sym hk
          ∙ ap (λ (z : MethodVTableItem (Handler bus transport)). z.callback_handler)
              (only k kin named)
          ∙ handler) in
        found_answers t m.name y g found (handled ∙ ap some same)

    -- Calling a registered method over the bus is calling the function that implements it: the
    -- client gets the function's result, or an exception with the D-Bus name and the message of the
    -- one that the function threw. If the arguments cannot be written to a message, the client gets
    -- the exception of writing them, and if the result cannot, that exception counts as one that the
    -- function threw. No other method of the object has the name, the loops over elements have
    -- enough fuel, the variants in the arguments and the result hold values, and no array in them
    -- has elements without a signature.
    pub store_results_to_lem :
        (f : Value a → Result (Value b)) (valid_member : Name → Bool) (interface : Name)
        (xs : List (VTableItem (Handler bus transport))) (t : VTable (Handler bus transport))
        (m : MethodVTableItem (Handler bus transport)) (args : Value a)
        → create_internal_vtable valid_member interface xs ≡ ok t
        → Contains (method m) xs
        → m.callback_handler ≡ some (implemented_as bus transport a b fuel f)
        → ((k : MethodVTableItem (Handler bus transport))
            → Contains (method k) xs
            → k.name ≡ m.name
            → k ≡ m)
        → Readable fuel a args
        → ((r : Value b) → f args ≡ ok r → Readable fuel b r)
        → store_results_to bus transport a b fuel disconnected
            (serve bus transport set_errno append t m.name)
            args
          ≡ (as_sent bus transport a args >>= λ x.
              on_bus set_errno append (f args >>= as_sent bus transport b))
    unfolding implemented_as store_results_to as_sent
    store_results_to_lem f valid_member interface xs t m args made at handler only readable
          results =
        let service = serve bus transport set_errno append t m.name in
        let serves =
          serve_lem valid_member interface xs t m (implemented_as bus transport a b fuel f) made at
            handler only in
        let go_on = λ (input : Value a). f input >>= λ ret.
        write bus b ret transport.new_message >>= λ reply. ok (replied reply) in
        called_with service go_on args
          (on_bus set_errno append (f args >>= as_sent bus transport b))
          (write bus a args transport.new_message) refl
          (λ n written.
            ap (receive bus transport b fuel disconnected) (
              served_call service (implemented_as bus transport a b fuel f) go_on args n serves
                (λ call. refl) readable written)
            ∙ answered (f args) results)
