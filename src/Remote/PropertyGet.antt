-- ===== src/Remote/PropertyGet.antt =====
-- A property that is read over the bus is its getter.
use sdbus_cpp.Message.Write.{write}
use sdbus_cpp.Prelude.{
  ℕ, pos, negsuc, String, Option, none, some, Result, ok, throw, Exception, ◌>>=◌, ◌≡◌, refl, ap,
  sym, ◌∙◌,
}
use sdbus_cpp.Flags.{VtableBits}
use sdbus_cpp.Handler.{BusError}
use sdbus_cpp.Message.Types.{Ty, variant, unit, pair, Value, signature_of}
use sdbus_cpp.Message.Api.{SdBusMessage, AppendLaws, ReadLaws}
use sdbus_cpp.Message.Reader.{Reader}
use sdbus_cpp.Message.ReadArrays.{Readable}
use sdbus_cpp.Message.Wire.{emit}
use sdbus_cpp.Message.Items.{variant_contents-IsItem}
use sdbus_cpp.Message.Variant.{variant_contents}
use sdbus_cpp.Object.Items.{VTable, SdBusEntry}
use sdbus_cpp.Object.Register.{create_internal_sd_bus_vtable}
use sdbus_cpp.Object.Entries.{IsOnly}
use sdbus_cpp.Remote.Transport.{Transport, TransportLaws}
use sdbus_cpp.Remote.Service.{Answer, replied, failed}
use sdbus_cpp.Remote.Client.{receive}
use sdbus_cpp.Remote.Call.{on_bus}
use sdbus_cpp.Remote.PropertyBus.{PropertyBus, PropertyBusLaws, get_arguments}
use sdbus_cpp.Remote.Property.{
  get_service, value_as, PropertyHandler, gets, fill_reply, run_getter, Service, get_as,
  get_property_on, property_get_callback,
}
use sdbus_cpp.Remote.PropertySound.{
  throw-failed, sent, received-emit, called, get_as-contents, filled,
}
use sdbus_cpp.Remote.PropertyCallbacks.{run_getter-ok, run_getter-throw}

module _ (bus : SdBusMessage) (append_laws : AppendLaws bus) (read_laws : ReadLaws bus)
    (transport : Transport bus) (laws : TransportLaws bus append_laws read_laws transport)
    (props : PropertyBus bus) (props_laws : PropertyBusLaws bus append_laws read_laws props)
    (disconnected : Exception) (fuel : ℕ) {S : Type 0} (set_errno : ℕ → Option BusError)
    (append : String → String → String) (bits : VtableBits) where
  module _ (interface property_name : String) (t : Ty) (v : VTable (PropertyHandler bus S))
      (e : SdBusEntry)
      (registered : IsOnly
        (props.name_of property_name)
        (signature_of t)
        e
        (create_internal_sd_bus_vtable bits v))
      (asked : bus.Msg)
      (asks : write bus get_arguments (interface, (property_name, tt)) transport.new_message
        ≡ ok asked) where
    get_answered :
        (service : Service bus S) (s s' : S) (answer : Answer bus)
        → ((call : Reader bus)
            → read_laws.rest call.msg ≡ emit get_arguments (interface, (property_name, tt))
            → service s call ≡ (answer, s'))
        → get_property_on bus transport disconnected fuel service property_name interface s ≡ (
          receive bus transport (pair variant unit) fuel disconnected answer >>= λ results.
              ok results.0,
          s',
        )
    unfolding get_property_on
    get_answered service s s' answer serves =
        ap (λ z. (z.0 >>= λ results. ok results.0, z.1))
          (called bus append_laws read_laws transport laws disconnected fuel get_arguments
            (pair variant unit) service (interface, (property_name, tt)) s s' asked answer asks
            (serves (transport.deliver asked) (
              sent bus append_laws read_laws transport laws disconnected fuel get_arguments
                (interface, (property_name, tt)) asked asks)))

    pub get_of :
        (g : S → Result (Value t) × S) (s s' : S) (r : Result (Value t))
        → ((s : S) (reply : bus.Msg)
            → property_get_callback bus S set_errno append v (props.name_of property_name) s reply
              ≡ run_getter bus S set_errno append (some (gets (fill_reply bus S t g))) s reply)
        → g s ≡ (r, s')
        → ((x : Value t)
            → r ≡ ok x
            → Readable fuel t x
              × ((m : bus.Msg) × (write bus t x (props.reply_for (signature_of t)) ≡ ok m)))
        → value_as bus props fuel t (
            get_property_on bus transport disconnected fuel
              (get_service bus props set_errno append bits (props.name_of interface) v)
              property_name
              interface
              s)
          ≡ (on_bus set_errno append r, s')
    unfolding on_bus get_as
    get_of g s s' (ok x) calls ran readable =
        let (h, (reply, filled_ok)) = readable x refl in
        let contents =
          filled bus append_laws read_laws transport laws disconnected fuel props props_laws t x
            reply filled_ok in
        let received : receive bus transport (pair variant unit) fuel disconnected
              (replied (props.finished reply))
            ≡ ok (variant_contents t x, tt) =
          received-emit bus append_laws read_laws transport laws disconnected fuel
            (pair variant unit) (variant_contents t x, tt) (props.finished reply)
            (variant_contents-IsItem t fuel x h, tt) contents in
        ap (value_as bus props fuel t) (
          get_answered (get_service bus props set_errno append bits (props.name_of interface) v) s
            s' (replied (props.finished reply))
            (λ call there.
              props_laws.get_replied _ interface property_name e (signature_of t) _ s s' call
                (pos 1) reply registered there
                (calls s (props.reply_for (signature_of t))
                  ∙ run_getter-ok bus S set_errno append t g s s' x _ reply ran filled_ok)
                refl)
          ∙ ap (λ z. (z >>= λ results. ok results.0, s')) received)
        ∙ ap (λ z. (z, s'))
            (get_as-contents bus append_laws read_laws transport laws disconnected fuel props
              props_laws t x h)
    get_of g s s' (throw ex) calls ran readable =
        let (error, seen, caught, thrown, local) =
          throw-failed bus transport set_errno append disconnected fuel ex in
        ap (value_as bus props fuel t) (
          get_answered (get_service bus props set_errno append bits (props.name_of interface) v) s
            s' (failed error)
            (λ call there.
              props_laws.get_failed _ interface property_name e (signature_of t) _ s s' call
                (negsuc 0) none error registered there
                (calls s (props.reply_for (signature_of t))
                  ∙ run_getter-throw bus S set_errno append t g s s' ex error _ ran caught))
          ∙ ap (λ z. (z >>= λ results. ok results.0, s')) (thrown (pair variant unit)))
        ∙ ap (λ z. (z, s')) (sym (local (Value t)))
