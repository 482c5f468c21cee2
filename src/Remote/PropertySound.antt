-- ===== src/Remote/PropertySound.antt =====
-- What a client gets of a property, and what becomes of a value that it sets.
use sdbus_cpp.Prelude.{
  ℕ, String, false, Option, some, List, [], ◌∷◌, ◌++◌, ok, throw, Exception, errno_error, error,
  std_exception, unknown_exception, out_of_fuel, ◌>>=◌, ◌≡◌, refl, ap, sym, ◌∙◌, append-nil,
}
use sdbus_cpp.Handler.{BusError, catch_errors}
use sdbus_cpp.Message.Types.{
  Ty, variant, unit, pair, string, Value, Token, closing, item, text, default_value, signature_of,
}
use sdbus_cpp.Message.Api.{SdBusMessage, AppendLaws, ReadLaws}
use sdbus_cpp.Message.Write.{write, to_payload}
use sdbus_cpp.Message.WriteSound.{write-emit}
use sdbus_cpp.Message.Reader.{Reader}
use sdbus_cpp.Message.Read.{read}
use sdbus_cpp.Message.ReadArrays.{Readable}
use sdbus_cpp.Message.RoundTrip.{read-Reads}
use sdbus_cpp.Message.Wire.{emit}
use sdbus_cpp.Message.Variant.{make_variant, made-contents, variant_contents, get-contents}
use sdbus_cpp.Remote.Transport.{Transport, TransportLaws}
use sdbus_cpp.Remote.Service.{Answer, replied, failed}
use sdbus_cpp.Remote.Client.{receive, call_for_reply}
use sdbus_cpp.Remote.Call.{on_bus}
use sdbus_cpp.Remote.PropertyBus.{PropertyBus, PropertyBusLaws, get_arguments, set_arguments}
use sdbus_cpp.Remote.Property.{Service, call_service, get_as}

-- An exception of a handler is an error, which the client throws as it sees it.
pub throw-failed :
    (bus : SdBusMessage) (transport : Transport bus) (set_errno : ℕ → Option BusError)
    (append : String → String → String) (disconnected : Exception) (fuel : ℕ) (ex : Exception)
    → (e : BusError) × (seen : Exception) × (catch_errors set_errno append (throw ex)
        ≡ (false, some e))
      × ((b : Ty) → receive bus transport b fuel disconnected (failed e) ≡ throw seen)
      × ((A : Type 0) → on_bus {A = A} set_errno append (throw ex) ≡ throw seen)
unfolding catch_errors on_bus call_for_reply
throw-failed bus transport set_errno append disconnected fuel (errno_error n what) =
    (_, _, refl, (λ b. refl), (λ A. refl))
throw-failed bus transport set_errno append disconnected fuel (error name message) =
    (_, _, refl, (λ b. refl), (λ A. refl))
throw-failed bus transport set_errno append disconnected fuel (std_exception what) =
    (_, _, refl, (λ b. refl), (λ A. refl))
throw-failed bus transport set_errno append disconnected fuel unknown_exception =
    (_, _, refl, (λ b. refl), (λ A. refl))
throw-failed bus transport set_errno append disconnected fuel out_of_fuel =
    (_, _, refl, (λ b. refl), (λ A. refl))

module _ (bus : SdBusMessage) (append_laws : AppendLaws bus) (read_laws : ReadLaws bus)
    (transport : Transport bus) (laws : TransportLaws bus append_laws read_laws transport)
    (disconnected : Exception) (fuel : ℕ) where
  -- What is written to a new message is the contents of what arrives.
  pub sent :
      (a : Ty) (x : Value a) (m : bus.Msg)
      → write bus a x transport.new_message ≡ ok m
      → read_laws.rest (transport.deliver m).msg ≡ emit a x
  sent a x m written =
      laws.delivered m
      ∙ write-emit bus append_laws a x transport.new_message written
      ∙ ap (λ ts. ts ++ emit a x) laws.new_empty

  -- A reply with those contents is received as the value.
  pub received-emit :
      (b : Ty) (x : Value b) (m : bus.Msg)
      → Readable fuel b x
      → append_laws.written m ≡ emit b x
      → receive bus transport b fuel disconnected (replied m) ≡ ok x
  unfolding call_for_reply
  received-emit b x m h contents =
      let (s, arrived, _, _, _) =
        read-Reads bus read_laws b fuel x h (transport.deliver m) []
          (laws.delivered m ∙ contents ∙ sym (append-nil (emit b x))) (laws.delivered_valid m) in
      rw (call_for_reply, arrived) refl

  pub called :
      {S : Type 0} (a b : Ty) (service : Service bus S) (args : Value a) (s s' : S) (m : bus.Msg)
      (answer : Answer bus)
      → write bus a args transport.new_message ≡ ok m
      → service s (transport.deliver m) ≡ (answer, s')
      → call_service bus transport disconnected fuel a b service args s
        ≡ (receive bus transport b fuel disconnected answer, s')
  unfolding call_service
  called a b service args s s' m answer written answered = rw (call_service, written, answered) refl

  module _ (props : PropertyBus bus)
      (props_laws : PropertyBusLaws bus append_laws read_laws props) where
    pub get_as-contents :
        (t : Ty) (x : Value t)
        → Readable fuel t x
        → get_as bus props fuel t (ok (variant_contents t x)) ≡ ok x
    unfolding get_as
    get_as-contents t x h =
        let (same, outside, valid) = props_laws.message_of_lem (variant_contents t x) in
        let (s, got_it, _) =
          get-contents bus read_laws t fuel x (props.message_of (variant_contents t x)) h outside
            (same ∙ sym (append-nil (variant_contents t x))) valid in
        rw (get_as, ◌>>=◌, got_it) refl

    -- The reply that a getter fills, as it is sent.
    pub filled :
        (t : Ty) (x : Value t) (m : bus.Msg)
        → write bus t x (props.reply_for (signature_of t)) ≡ ok m
        → append_laws.written (props.finished m)
          ≡ emit (pair variant unit) (variant_contents t x, tt)
    unfolding emit
    filled t x m written =
        props_laws.finished_lem m
        ∙ ap (λ ts. ts ++ closing ∷ [])
            (write-emit bus append_laws t x (props.reply_for (signature_of t)) written
              ∙ ap (λ ts. ts ++ emit t x) (props_laws.reply_for_lem (signature_of t)))
        ∙ sym (append-nil (variant_contents t x))

    -- The contents of a Variant that is made of the value.
    pub boxed :
        (t : Ty) (x : Value t) (m : bus.Msg)
        → make_variant bus t x transport.new_message ≡ ok m
        → props.contents m ≡ variant_contents t x
    boxed t x m made =
        props_laws.contents_lem m
        ∙ made-contents bus append_laws t x transport.new_message laws.new_empty made
        ∙ append-nil (variant_contents t x)

    -- A setter reads the value that was set.
    pub value_in-read :
        (t : Ty) (x : Value t) (names : Value get_arguments) (call : Reader bus)
        → Readable fuel t x
        → read_laws.rest call.msg ≡ emit get_arguments names ++ variant_contents t x
        → (s : Reader bus) × (read bus t fuel (default_value t) (props.value_in call) ≡ ok (x, s))
    value_in-read t x names call h here =
        let (inside, valid) = props_laws.value_in_lem names (signature_of t) (emit t x) call here in
        let (s, arrived, _, _, _) =
          read-Reads bus read_laws t fuel x h (props.value_in call) (closing ∷ []) inside valid in
        (s, arrived)

-- The arguments of Set are those of Get with the value behind them.
pub emit-set_arguments :
    (interface property_name : String) (ts : List Token)
    → emit set_arguments (interface, (property_name, (ts, tt)))
      ≡ emit get_arguments (interface, (property_name, tt)) ++ ts
unfolding emit to_payload
emit-set_arguments interface property_name ts =
    ap (λ (us : List Token). item string (text interface) ∷ item string (text property_name) ∷ us)
      (append-nil ts)
