-- ===== src/Remote/PropertyBus.antt =====
-- libsystemd's own methods `Get` and `Set` of org.freedesktop.DBus.Properties, which call back into
-- src/Object.cpp, as parameters.
use sdbus_cpp.Prelude.{
  ℕ, ℤ, is_neg, String, true, false, Option, none, some, List, [], ◌∷◌, ◌++◌, ◌≡◌,
}
use sdbus_cpp.Handler.{BusError}
use sdbus_cpp.Message.Types.{
  Ty, basic, string, pair, unit, variant, Value, Token, Container, opening, closing,
}
use sdbus_cpp.Message.Api.{SdBusMessage, AppendLaws, ReadLaws}
use sdbus_cpp.Message.Reader.{Reader}
use sdbus_cpp.Message.Wire.{emit}
use sdbus_cpp.Flags.{Word}
use sdbus_cpp.Object.Names.{Name}
use sdbus_cpp.Object.Items.{SdBusEntry, writable_property}
use sdbus_cpp.Object.Entries.{IsOnly}
use sdbus_cpp.Remote.Service.{Answer, replied, failed}

-- The arguments of Get, the names of the interface and of the property, and those of Set.
abbrev pub get_arguments : Ty
get_arguments = pair (basic string) (pair (basic string) unit)

abbrev pub set_arguments : Ty
set_arguments = pair (basic string) (pair (basic string) (pair variant unit))

-- What the callbacks do, on the state of the service: the result and the error, for a getter with
-- the reply if it was filled. After a failed assertion there is nothing.
abbrev pub GetCallback : SdBusMessage → Type 0 → Type 0
GetCallback bus S = Name → S → bus.Msg → Option ((ℤ × Option BusError × Option bus.Msg) × S)

abbrev pub SetCallback : SdBusMessage → Type 0 → Type 0
SetCallback bus S = Name → S → Reader bus → Option ((ℤ × Option BusError) × S)

pub record PropertyBus (bus : SdBusMessage) : Type 1 where
  -- The bytes of a text.
  pub name_of : String → Name
  -- The answer to a call, for an object with that interface and those entries.
  pub get_property :
      {S : Type 0} → Name → List SdBusEntry → GetCallback bus S → S → Reader bus → Answer bus × S
  pub set_property :
      {S : Type 0} → Name → List SdBusEntry → SetCallback bus S → S → Reader bus → Answer bus × S
  -- The reply as a getter gets it, for the property's signature, and the reply as it is sent.
  pub reply_for : List ℕ → bus.Msg
  pub finished : bus.Msg → bus.Msg
  -- The call of Set as a setter gets it, and the reply to it.
  pub value_in : Reader bus → Reader bus
  pub accepted : bus.Msg
  -- The contents of a sealed message of a Variant, and the message of a Variant with them.
  pub contents : bus.Msg → List Token
  pub message_of : List Token → Reader bus

-- What libsystemd documents. A property is called back under its registered name, with the reply open
-- at a variant of its registered signature, or with the call at the contents of the variant, if that
-- has the registered signature. The answer is an error if the callback set one.
pub record PropertyBusLaws (bus : SdBusMessage) (append : AppendLaws bus) (read : ReadLaws bus)
    (props : PropertyBus bus) : Type 1 where
  pub get_replied :
      {S : Type 0} (entries : List SdBusEntry) (interface property : String) (e : SdBusEntry)
      (signature : List ℕ) (callback : GetCallback bus S) (s s' : S) (call : Reader bus) (r : ℤ)
      (m : bus.Msg)
      → IsOnly (props.name_of property) signature e entries
      → read.rest call.msg ≡ emit get_arguments (interface, (property, tt))
      → callback (props.name_of property) s (props.reply_for signature)
        ≡ some ((r, none, some m), s')
      → is_neg r ≡ false
      → props.get_property (props.name_of interface) entries callback s call
        ≡ (replied (props.finished m), s')
  pub get_failed :
      {S : Type 0} (entries : List SdBusEntry) (interface property : String) (e : SdBusEntry)
      (signature : List ℕ) (callback : GetCallback bus S) (s s' : S) (call : Reader bus) (r : ℤ)
      (m : Option bus.Msg) (error : BusError)
      → IsOnly (props.name_of property) signature e entries
      → read.rest call.msg ≡ emit get_arguments (interface, (property, tt))
      → callback (props.name_of property) s (props.reply_for signature)
        ≡ some ((r, some error, m), s')
      → props.get_property (props.name_of interface) entries callback s call ≡ (failed error, s')
  pub set_replied :
      {S : Type 0} (entries : List SdBusEntry) (interface property : String) (signature : List ℕ)
      (flags : Word) (inside : List Token) (callback : SetCallback bus S) (s s' : S)
      (call : Reader bus) (r : ℤ)
      → IsOnly
          (props.name_of property)
          signature
          (writable_property (props.name_of property) signature flags)
          entries
      → read.rest call.msg
        ≡ emit set_arguments (
          interface,
          (property, (opening Container.variant signature ∷ (inside ++ closing ∷ []), tt)),
        )
      → callback (props.name_of property) s (props.value_in call) ≡ some ((r, none), s')
      → is_neg r ≡ false
      → props.set_property (props.name_of interface) entries callback s call
        ≡ (replied props.accepted, s')
  pub set_failed :
      {S : Type 0} (entries : List SdBusEntry) (interface property : String) (signature : List ℕ)
      (flags : Word) (inside : List Token) (callback : SetCallback bus S) (s s' : S)
      (call : Reader bus) (r : ℤ) (error : BusError)
      → IsOnly
          (props.name_of property)
          signature
          (writable_property (props.name_of property) signature flags)
          entries
      → read.rest call.msg
        ≡ emit set_arguments (
          interface,
          (property, (opening Container.variant signature ∷ (inside ++ closing ∷ []), tt)),
        )
      → callback (props.name_of property) s (props.value_in call) ≡ some ((r, some error), s')
      → props.set_property (props.name_of interface) entries callback s call ≡ (failed error, s')
  pub reply_for_lem :
      (signature : List ℕ)
      → append.written (props.reply_for signature) ≡ opening Container.variant signature ∷ []
  pub finished_lem :
      (m : bus.Msg) → append.written (props.finished m) ≡ append.written m ++ closing ∷ []
  pub value_in_lem :
      (names : Value get_arguments) (signature : List ℕ) (inside : List Token) (call : Reader bus)
      → read.rest call.msg
        ≡ emit get_arguments names ++ opening Container.variant signature ∷ (inside ++ closing ∷ [])
      → (read.rest (props.value_in call).msg ≡ inside ++ closing ∷ [])
        × ((props.value_in call).valid ≡ true)
  pub accepted_lem : append.written props.accepted ≡ []
  pub contents_lem : (m : bus.Msg) → props.contents m ≡ append.written m
  pub message_of_lem :
      (ts : List Token)
      → (read.contents (props.message_of ts).msg ≡ ts)
        × (read.containers (props.message_of ts).msg ≡ [])
        × ((props.message_of ts).valid ≡ true)
