-- ===== src/Remote/PropertySet.antt =====
-- A property that is written over the bus is its setter.
use sdbus_cpp.Message.Write.{write}
use sdbus_cpp.Prelude.{
  ℕ, pos, negsuc, String, Option, some, Result, ok, throw, Exception, ◌≡◌, refl, ap, sym, ◌∙◌,
}
use sdbus_cpp.Flags.{VtableBits, Word}
use sdbus_cpp.Handler.{BusError}
use sdbus_cpp.Message.Types.{Ty, unit, Value, signature_of}
use sdbus_cpp.Message.Api.{SdBusMessage, AppendLaws, ReadLaws}
use sdbus_cpp.Message.Reader.{Reader}
use sdbus_cpp.Message.ReadArrays.{Readable}
use sdbus_cpp.Message.Wire.{emit}
use sdbus_cpp.Message.Variant.{make_variant, variant_contents}
use sdbus_cpp.Object.Items.{VTable, writable_property}
use sdbus_cpp.Object.Register.{create_internal_sd_bus_vtable}
use sdbus_cpp.Object.Entries.{IsOnly}
use sdbus_cpp.Remote.Transport.{Transport, TransportLaws}
use sdbus_cpp.Remote.Service.{Answer, replied, failed}
use sdbus_cpp.Remote.Client.{receive}
use sdbus_cpp.Remote.Call.{on_bus}
use sdbus_cpp.Remote.PropertyBus.{PropertyBus, PropertyBusLaws, set_arguments}
use sdbus_cpp.Remote.Property.{
  set_service, PropertyHandler, sets, take_value, run_setter, Service, to_value,
  property_set_callback,
}
use sdbus_cpp.Remote.PropertySound.{
  boxed, value_in-read, emit-set_arguments, throw-failed, sent, received-emit, called,
}
use sdbus_cpp.Remote.PropertyCallbacks.{run_setter-ok, run_setter-throw}

module _ (bus : SdBusMessage) (append_laws : AppendLaws bus) (read_laws : ReadLaws bus)
    (transport : Transport bus) (laws : TransportLaws bus append_laws read_laws transport)
    (props : PropertyBus bus) (props_laws : PropertyBusLaws bus append_laws read_laws props)
    (disconnected : Exception) (fuel : ℕ) {S : Type 0} (set_errno : ℕ → Option BusError)
    (append : String → String → String) (bits : VtableBits) where
  module _ (interface property_name : String) (t : Ty) (v : VTable (PropertyHandler bus S))
      (flags : Word)
      (registered : IsOnly
        (props.name_of property_name)
        (signature_of t)
        (writable_property (props.name_of property_name) (signature_of t) flags)
        (create_internal_sd_bus_vtable bits v)) where
    set_answered :
        (service : Service bus S) (x : Value t) (s s' : S) (answer : Answer bus)
        (box asked : bus.Msg)
        → make_variant bus t x transport.new_message ≡ ok box
        → write bus set_arguments
            (interface, (property_name, (variant_contents t x, tt)))
            transport.new_message
          ≡ ok asked
        → ((call : Reader bus)
            → read_laws.rest call.msg
              ≡ emit set_arguments (interface, (property_name, (variant_contents t x, tt)))
            → service s call ≡ (answer, s'))
        → to_value bus transport props disconnected fuel t service property_name interface x s
          ≡ (receive bus transport unit fuel disconnected answer, s')
    unfolding to_value
    set_answered service x s s' answer box asked made asks serves =
        let inside =
          boxed bus append_laws read_laws transport laws disconnected fuel props props_laws t x box
            made in
        let args : Value set_arguments = (interface, (property_name, (variant_contents t x, tt))) in
        let there =
          sent bus append_laws read_laws transport laws disconnected fuel set_arguments args asked
            asks in
        rw (to_value, made, inside)
          (called bus append_laws read_laws transport laws disconnected fuel set_arguments unit
            service args s s' asked answer asks (serves (transport.deliver asked) there))

    pub set_of :
        (h : Value t → S → Result (Unit {0}) × S) (x : Value t) (s s' : S) (r : Result (Unit {0}))
        (box asked : bus.Msg)
        → ((s : S) (call : Reader bus)
            → property_set_callback bus S set_errno append v (props.name_of property_name) s call
              ≡ run_setter bus S set_errno append (some (sets (take_value bus S t fuel h))) s call)
        → h x s ≡ (r, s')
        → Readable fuel t x
        → make_variant bus t x transport.new_message ≡ ok box
        → write bus set_arguments
            (interface, (property_name, (variant_contents t x, tt)))
            transport.new_message
          ≡ ok asked
        → to_value bus transport props disconnected fuel t
            (set_service bus props set_errno append bits (props.name_of interface) v)
            property_name
            interface
            x
            s
          ≡ (on_bus set_errno append r, s')
    unfolding on_bus emit
    set_of h x s s' (ok u) box asked calls ran readable made asks =
        set_answered (set_service bus props set_errno append bits (props.name_of interface) v) x s
          s' (replied props.accepted) box asked made asks
          (λ call there.
            let (rest, arrived) =
              value_in-read bus append_laws read_laws transport laws disconnected fuel props
                props_laws t x (interface, (property_name, tt)) call readable
                (there ∙ emit-set_arguments interface property_name (variant_contents t x)) in
            props_laws.set_replied _ interface property_name (signature_of t) flags (emit t x) _ s
              s' call (pos 1) registered there
              (calls s (props.value_in call)
                ∙ run_setter-ok bus S set_errno append t fuel h s s' x (props.value_in call) rest u
                    arrived ran)
              refl)
        ∙ ap (λ z. (z, s'))
            (received-emit bus append_laws read_laws transport laws disconnected fuel unit u
              props.accepted tt props_laws.accepted_lem)
    set_of h x s s' (throw ex) box asked calls ran readable made asks =
        let (error, seen, caught, thrown, local) =
          throw-failed bus transport set_errno append disconnected fuel ex in
        set_answered (set_service bus props set_errno append bits (props.name_of interface) v) x s
          s' (failed error) box asked made asks
          (λ call there.
            let (rest, arrived) =
              value_in-read bus append_laws read_laws transport laws disconnected fuel props
                props_laws t x (interface, (property_name, tt)) call readable
                (there ∙ emit-set_arguments interface property_name (variant_contents t x)) in
            props_laws.set_failed _ interface property_name (signature_of t) flags (emit t x) _ s s'
              call (negsuc 0) error registered there
              (calls s (props.value_in call)
                ∙ run_setter-throw bus S set_errno append t fuel h s s' x (props.value_in call) rest
                    ex error arrived ran caught))
        ∙ ap (λ z. (z, s')) (thrown unit ∙ sym (local (Unit {0})))
