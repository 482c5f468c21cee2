-- ===== src/Remote/AsyncCall.antt =====
-- Asynchronous calls and methods give what synchronous ones give.
use sdbus_cpp.Prelude.{
  sym, ap, ℕ, String, Bool, Option, some, List, Result, ok, throw, Exception, errno_error, error,
  std_exception, unknown_exception, out_of_fuel, ◌>>=◌, ◌≡◌, ◌≢◌, refl, ◌∙◌,
}
use sdbus_cpp.Handler.{BusError}
use sdbus_cpp.Message.Types.{Ty, Value, default_value}
use sdbus_cpp.Message.Api.{SdBusMessage, AppendLaws, ReadLaws}
use sdbus_cpp.Message.Write.{write}
use sdbus_cpp.Message.Reader.{Reader}
use sdbus_cpp.Message.Read.{read}
use sdbus_cpp.Message.ReadArrays.{Readable}
use sdbus_cpp.Message.Raises.{Raises, read-Safe}
use sdbus_cpp.Object.Names.{Name}
use sdbus_cpp.Object.Search.{Contains}
use sdbus_cpp.Object.Items.{MethodVTableItem, VTableItem, method, VTable}
use sdbus_cpp.Object.Register.{create_internal_vtable}
use sdbus_cpp.Remote.Transport.{Transport, TransportLaws}
use sdbus_cpp.Remote.Service.{Answer, replied, failed, aborted, Handler, answer_of, serve}
use sdbus_cpp.Remote.Client.{call_for_reply, receive, store_results_to}
use sdbus_cpp.Remote.Call.{received, served_call, serve_lem}
use sdbus_cpp.Remote.Async.{
  Completion, return_results, return_error, sent_results, complete, implemented_as_async,
  catch_error, async_reply, future_get, get_result_as_future,
}

module _ (bus : SdBusMessage) (transport : Transport bus) (a b : Ty) (fuel : ℕ)
    (disconnected : Exception) (lost : BusError) where
  read_result :
      (r : Result (Value b × Reader bus))
      → Raises r
      → (r >>= λ (results, end). ok results) ≢ throw out_of_fuel
      → future_get bus transport b (catch_error bus transport b r)
        ≡ (r >>= λ (results, end). ok results)
  unfolding future_get catch_error Raises
  read_result (ok (x, end)) raised enough = refl
  read_result (throw (errno_error number what)) raised enough = refl
  read_result (throw (error name message)) raised enough = refl
  read_result (throw out_of_fuel) raised enough = absurd (enough refl)
  read_result (throw (std_exception what)) raised enough = absurd raised
  read_result (throw unknown_exception) raised enough = absurd raised

  same_answer :
      (answer : Answer bus)
      → answer ≢ aborted
      → receive bus transport b fuel disconnected answer ≢ throw out_of_fuel
      → future_get bus transport b (async_reply bus transport b fuel lost answer)
        ≡ receive bus transport b fuel disconnected answer
  unfolding call_for_reply async_reply future_get
  same_answer (replied reply) answered enough =
      read_result (read bus b fuel (default_value b) (transport.deliver reply))
        (read-Safe bus b fuel (default_value b) (transport.deliver reply)) enough
  same_answer (failed e) answered enough = refl
  same_answer aborted answered enough = absurd (answered refl)

  after_write :
      (service : Reader bus → Answer bus) (written : Result bus.Msg)
      → ((m : bus.Msg) → written ≡ ok m → service (transport.deliver m) ≢ aborted)
      → (written >>= λ m. receive bus transport b fuel disconnected (service (transport.deliver m)))
        ≢ throw out_of_fuel
      → ((written >>= λ m. ok (
            future_get bus transport b
              (async_reply bus transport b fuel lost (service (transport.deliver m)))))
          >>= λ future. future)
        ≡ (written >>= λ m.
            receive bus transport b fuel disconnected (service (transport.deliver m)))
  after_write service (ok m) answers enough =
      same_answer (service (transport.deliver m)) (answers m refl) enough
  after_write service (throw e) answers enough = refl

  -- Getting the future of an asynchronous call and waiting for it is making the call synchronously:
  -- it gives the same result, or throws the same exception, whatever the service answers and
  -- whatever the answer's contents are, if it answers at all and the loops over elements have enough
  -- fuel. (For a call that is never answered, libsystemd's errors differ.)
  pub get_result_as_future_lem :
      (service : Reader bus → Answer bus) (args : Value a)
      → ((m : bus.Msg)
          → write bus a args transport.new_message ≡ ok m
          → service (transport.deliver m) ≢ aborted)
      → store_results_to bus transport a b fuel disconnected service args ≢ throw out_of_fuel
      → (get_result_as_future bus transport a b fuel lost service args >>= λ future. future)
        ≡ store_results_to bus transport a b fuel disconnected service args
  unfolding get_result_as_future store_results_to
  get_result_as_future_lem service args answers enough =
      after_write service (write bus a args transport.new_message) answers enough

-- What the client is to get for what the service did with its `Result` object.
unfoldable pub result_of : {b : Ty} → Completion b → Result (Value b)
result_of (return_results x) = ok x
result_of (return_error name message) = throw (error name message)

enough_fuel :
    {b : Ty} (c : Completion b) {r : Result (Value b)} → r ≡ result_of c → r ≢ throw out_of_fuel
unfolding result_of
enough_fuel (return_results x) e out = cc
enough_fuel (return_error name message) e out = cc

module _ (bus : SdBusMessage) (append_laws : AppendLaws bus) (read_laws : ReadLaws bus)
    (transport : Transport bus) (laws : TransportLaws bus append_laws read_laws transport)
    (set_errno : ℕ → Option BusError) (append : String → String → String) (disconnected : Exception)
    (lost : BusError) (a b : Ty) (fuel : ℕ) where
  -- Results that can be read back and written.
  abbrev pub CanReturn : Value b → Type 0
  CanReturn x = Readable fuel b x × ((m : bus.Msg) × (write bus b x transport.new_message ≡ ok m))

  completed :
      (c : Completion b)
      → ((x : Value b) → c ≡ return_results x → CanReturn x)
      → (complete bus transport b c ≢ aborted)
        × (receive bus transport b fuel disconnected (complete bus transport b c) ≡ result_of c)
  unfolding complete sent_results call_for_reply result_of
  completed (return_results x) results =
      let (h, (m, written)) = results x refl in
      let sent : complete bus transport b (return_results x) ≡ replied m =
        rw (written, complete, sent_results) refl in
      (
        (λ e. cc),
        ap (receive bus transport b fuel disconnected) sent
            ∙ received bus append_laws read_laws transport laws set_errno append disconnected a b
                fuel x m h written,
      )
  completed (return_error name message) results = ((λ e. cc), refl)

  -- The future of an asynchronous call of a registered asynchronous method gives the results that
  -- the method returns through its `Result` object, or throws the error that it returns. The
  -- arguments and the results can be written to a message, no other method of the object has the
  -- name, the method completes, the loops over elements have enough fuel, the variants in the values
  -- hold values, and no array in them has elements without a signature.
  pub get_result_as_future-result_of :
      (f : Value a → Completion b) (valid_member : Name → Bool) (interface : Name)
      (xs : List (VTableItem (Handler bus transport))) (t : VTable (Handler bus transport))
      (m : MethodVTableItem (Handler bus transport)) (args : Value a) (sent : bus.Msg)
      → create_internal_vtable valid_member interface xs ≡ ok t
      → Contains (method m) xs
      → m.callback_handler ≡ some (implemented_as_async bus transport a b fuel f)
      → ((k : MethodVTableItem (Handler bus transport))
          → Contains (method k) xs
          → k.name ≡ m.name
          → k ≡ m)
      → Readable fuel a args
      → write bus a args transport.new_message ≡ ok sent
      → ((x : Value b) → f args ≡ return_results x → CanReturn x)
      → (get_result_as_future bus transport a b fuel lost
            (serve bus transport set_errno append t m.name)
            args
          >>= λ future. future)
        ≡ result_of (f args)
  unfolding implemented_as_async answer_of store_results_to
  get_result_as_future-result_of f valid_member interface xs t m args sent made at handler only
        readable written results =
      let service = serve bus transport set_errno append t m.name in
      let (answers, gives) = completed (f args) results in
      let answer : service (transport.deliver sent) ≡ complete bus transport b (f args) =
        served_call bus append_laws read_laws transport laws set_errno append disconnected a b fuel
          service (implemented_as_async bus transport a b fuel f)
          (λ input. ok (complete bus transport b (f input))) args sent
          (serve_lem bus append_laws read_laws transport laws set_errno append disconnected a b fuel
            valid_member interface xs t m (implemented_as_async bus transport a b fuel f) made at
            handler only)
          (λ call. refl) readable written in
      let called : store_results_to bus transport a b fuel disconnected service args
          ≡ result_of (f args) =
        rw (written, store_results_to)
          (ap (receive bus transport b fuel disconnected) answer ∙ gives) in
      let answered =
        λ (n : bus.Msg) (same : write bus a args transport.new_message ≡ ok n)
            (e : service (transport.deliver n) ≡ aborted).
          answers (
            sym answer
            ∙ ap (λ k. service (transport.deliver k)) (let both = sym written ∙ same in cc)
            ∙ e) in
      get_result_as_future_lem bus transport a b fuel disconnected lost service args answered
        (enough_fuel (f args) called)
      ∙ called
