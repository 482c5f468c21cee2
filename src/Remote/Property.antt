-- ===== src/Remote/Property.antt =====
-- Properties: `PropertyVTableItem::withGetter` and `withSetter` of include/sdbus-c++/VTableItems.inl,
-- the property callbacks of src/Object.cpp with the messages that they fill and read, and
-- `PropertyGetter` and `PropertySetter` of include/sdbus-c++/ConvenienceApiClasses.inl. `S` is the
-- state of the service that the client's functions read and change.
use sdbus_cpp.Prelude.{
  ℕ, ℤ, pos, negsuc, String, Bool, Option, none, some, List, [], ◌∷◌, Result, ok, throw, Exception,
  ◌>>=◌, if◌then◌else◌,
}
use sdbus_cpp.Flags.{VtableBits}
use sdbus_cpp.Handler.{BusError, catch_errors}
use sdbus_cpp.Message.Types.{Ty, variant, unit, pair, Value, Token, default_value, signature_of}
use sdbus_cpp.Message.Api.{SdBusMessage}
use sdbus_cpp.Message.Write.{write}
use sdbus_cpp.Message.Reader.{Reader}
use sdbus_cpp.Message.Read.{read}
use sdbus_cpp.Message.Variant.{make_variant, get}
use sdbus_cpp.Object.Names.{Name}
use sdbus_cpp.Object.Items.{PropertyVTableItem, VTable}
use sdbus_cpp.Object.Register.{create_internal_sd_bus_vtable}
use sdbus_cpp.Object.Callbacks.{find_property, write_only}
use sdbus_cpp.Remote.Transport.{Transport}
use sdbus_cpp.Remote.Service.{Answer}
use sdbus_cpp.Remote.Client.{receive}
use sdbus_cpp.Remote.PropertyBus.{
  PropertyBus, GetCallback, SetCallback, get_arguments, set_arguments,
}

abbrev pub or_else : Name → Name → Name
or_else [] other = other
or_else (n ∷ ns) other = n ∷ ns

module _ (bus : SdBusMessage) (S : Type 0) where
  -- `property_get_callback` and `property_set_callback`.
  pub data PropertyHandler : Type 0 where
    gets : (S → bus.Msg → Result bus.Msg × S) → PropertyHandler
    sets : (S → Reader bus → Result (Unit {0}) × S) → PropertyHandler

  -- The lambdas of withGetter and withSetter.
  unfoldable pub fill_reply :
      (t : Ty) → (S → Result (Value t) × S) → S → bus.Msg → Result bus.Msg × S
  fill_reply t callback s reply =
      let (r, s') = callback s in (r >>= λ value. write bus t value reply, s')

  unfoldable pub take_value :
      (t : Ty) (fuel : ℕ)
      → (Value t → S → Result (Unit {0}) × S)
      → S
      → Reader bus
      → Result (Unit {0}) × S
  take_value t fuel callback s call = elim (read bus t fuel (default_value t) call) [
    | throw e ↦ (throw e, s)
    | ok (value, end) ↦ callback value s
  ]

  -- A signature that is given stays.
  unfoldable pub with_getter :
      (t : Ty)
      → (S → Result (Value t) × S)
      → PropertyVTableItem PropertyHandler
      → PropertyVTableItem PropertyHandler
  unfolding fill_reply
  with_getter t callback p = record p {
    signature = or_else p.signature (signature_of t);
    getter = some (gets (fill_reply t callback));
  }

  unfoldable pub with_setter :
      (t : Ty) (fuel : ℕ)
      → (Value t → S → Result (Unit {0}) × S)
      → PropertyVTableItem PropertyHandler
      → PropertyVTableItem PropertyHandler
  unfolding take_value
  with_setter t fuel callback p = record p {
    signature = or_else p.signature (signature_of t);
    setter = some (sets (take_value t fuel callback));
  }

  module _ (set_errno : ℕ → Option BusError) (append : String → String → String) where
    abbrev pub returned_as : Bool × Option BusError → ℤ × Option BusError
    returned_as (done, e) = (if done then pos 1 else negsuc 0, e)

    -- The reply, where the getter filled it.
    unfoldable pub got : Result bus.Msg → ℤ × Option BusError × Option bus.Msg
    unfolding catch_errors
    got (ok m) = let (r, e) = returned_as (catch_errors set_errno append (ok tt)) in (r, e, some m)
    got (throw ex) =
        let (r, e) = returned_as (catch_errors set_errno append (throw ex)) in (r, e, none)

    -- What sdbus_property_get_callback does for the getter of the property. (A handler of the other
    -- kind does not occur.)
    unfoldable pub run_getter :
        Option PropertyHandler → S → bus.Msg → Option ((ℤ × Option BusError × Option bus.Msg) × S)
    unfolding got write_only
    run_getter none s reply = some (
      (pos 1, some (write_only {H = PropertyHandler} set_errno append (λ h. ok tt)), some reply),
      s,
    )
    run_getter (some (gets f)) s reply = let (r, s') = f s reply in some (got r, s')
    run_getter (some (sets f)) s reply = none

    unfoldable pub run_setter :
        Option PropertyHandler → S → Reader bus → Option ((ℤ × Option BusError) × S)
    unfolding catch_errors
    run_setter none s call = none
    run_setter (some (gets f)) s call = none
    run_setter (some (sets f)) s call =
        let (r, s') = f s call in some (returned_as (catch_errors set_errno append r), s')

    -- sdbus_property_get_callback
    unfoldable pub property_get_callback : VTable PropertyHandler → GetCallback bus S
    unfolding find_property run_getter
    property_get_callback t property s reply = elim (find_property t property) [
      | none ↦ none
      | some p ↦ run_getter p.get_callback s reply
    ]

    -- sdbus_property_set_callback
    unfoldable pub property_set_callback : VTable PropertyHandler → SetCallback bus S
    unfolding find_property run_setter
    property_set_callback t property s call = elim (find_property t property) [
      | none ↦ none
      | some p ↦ run_setter p.set_callback s call
    ]

-- `get<T>()` of a Variant.
unfoldable pub get_as :
    (bus : SdBusMessage) (props : PropertyBus bus) (fuel : ℕ) (t : Ty)
    → Result (List Token)
    → Result (Value t)
get_as bus props fuel t r = r >>= λ ts. get bus t fuel (props.message_of ts) >>= λ x. ok x.0

-- The value that a client takes out of the Variant.
abbrev pub value_as :
    {S : Type 0} (bus : SdBusMessage) (props : PropertyBus bus) (fuel : ℕ) (t : Ty)
    → Result (List Token) × S
    → Result (Value t) × S
value_as bus props fuel t (r, s) = (get_as bus props fuel t r, s)

-- A service that answers at once.
abbrev pub Service : SdBusMessage → Type 0 → Type 0
Service bus S = S → Reader bus → Answer bus × S

-- Get and Set for an object with that interface and that vtable.
module _ (bus : SdBusMessage) (props : PropertyBus bus) {S : Type 0}
    (set_errno : ℕ → Option BusError) (append : String → String → String) (bits : VtableBits) where
  abbrev pub get_service : Name → VTable (PropertyHandler bus S) → Service bus S
  get_service interface v =
      props.get_property interface (create_internal_sd_bus_vtable bits v)
        (property_get_callback bus S set_errno append v)

  abbrev pub set_service : Name → VTable (PropertyHandler bus S) → Service bus S
  set_service interface v =
      props.set_property interface (create_internal_sd_bus_vtable bits v)
        (property_set_callback bus S set_errno append v)

module _ (bus : SdBusMessage) (transport : Transport bus) {S : Type 0} (disconnected : Exception)
    (fuel : ℕ) where
  -- A call of that service, whose answer waits for nothing else, and the state after it.
  unfoldable pub call_service : (a b : Ty) → Service bus S → Value a → S → Result (Value b) × S
  call_service a b service args s = elim (write bus a args transport.new_message) [
    | throw e ↦ (throw e, s)
    | ok method ↦
        let (answer, s') = service s (transport.deliver method) in
        (receive bus transport b fuel disconnected answer, s')
  ]

  -- `proxy->getProperty(property).onInterface(interface)`
  unfoldable pub get_property_on :
      Service bus S → (property interface : String) → S → Result (List Token) × S
  unfolding call_service
  get_property_on service property interface s =
      let (r, s') =
        call_service get_arguments (pair variant unit) service (interface, (property, tt)) s in
      (r >>= λ results. ok results.0, s')

module _ (bus : SdBusMessage) (transport : Transport bus) (props : PropertyBus bus) {S : Type 0}
    (disconnected : Exception) (fuel : ℕ) where
  -- `proxy->setProperty(property).onInterface(interface).toValue(value)`
  unfoldable pub to_value :
      (t : Ty) → Service bus S → (property interface : String) → Value t → S → Result (Unit {0}) × S
  unfolding call_service
  to_value t service property interface value s =
      elim (make_variant bus t value transport.new_message) [
        | throw e ↦ (throw e, s)
        | ok m ↦
            call_service bus transport disconnected fuel set_arguments unit service
              (interface, (property, (props.contents m, tt))) s
      ]
