-- ===== src/Object/Tests.antt =====
-- A vtable of two methods and a property, registered and called back.
use sdbus_cpp.Prelude.{
  ℕ, zero, suc, String, Bool, true, Option, none, some, List, [], ◌∷◌, Result, ok, throw, error,
  ◌≡◌, refl, inl, inr, ◌↔◌, All,
}
use sdbus_cpp.Flags.{default_flags}
use sdbus_cpp.Handler.{BusError}
use sdbus_cpp.Object.Names.{Name}
use sdbus_cpp.Object.Search.{Contains}
use sdbus_cpp.Object.Items.{
  MethodVTableItem, PropertyVTableItem, VTableItem, method, property, VTable,
}
use sdbus_cpp.Object.Register.{create_internal_vtable}
use sdbus_cpp.Object.Valid.{IsValid, create-eq-ok_iff}
use sdbus_cpp.Object.Callbacks.{reply_of, sdbus_method_callback}
use sdbus_cpp.Object.Dispatch.{sdbus_method_callback_lem}

abbrev no_errno : ℕ → Option BusError
no_errno n = none

abbrev first_text : String → String → String
first_text a b = a

-- A handler is a number; the odd one throws.
abbrev run : ℕ → Result (Unit {0})
run (suc zero) = throw (error "org.example.Error" "odd")
run n = ok tt

abbrev any_name : Name → Bool
any_name n = true

abbrev wait : Name
wait = 119 ∷ []

abbrev stop : Name
stop = 115 ∷ []

abbrev level : Name
level = 108 ∷ []

abbrev method_named : Name → ℕ → MethodVTableItem ℕ
method_named n h = record {
  name = n;
  input_signature = [];
  input_param_names = [];
  output_signature = [];
  output_param_names = [];
  callback_handler = some h;
  flags = default_flags;
}

abbrev level_property : PropertyVTableItem ℕ
level_property = record {
  name = level;
  signature = 117 ∷ [];
  getter = some 3;
  setter = none;
  flags = default_flags;
}

abbrev items : List (VTableItem ℕ)
items = method (method_named wait 1) ∷ method (method_named stop 2) ∷ property level_property ∷ []

items-IsValid : All (IsValid any_name) items
items-IsValid = ((refl, refl), ((refl, refl), ((refl, inl refl), tt)))

abbrev made : (t : VTable ℕ) × (create_internal_vtable any_name [] items ≡ ok t)
made = (create-eq-ok_iff any_name [] items).1 items-IsValid

create-eq-ok_iff_example :
    ((t : VTable ℕ) × (create_internal_vtable any_name [] items ≡ ok t))
    ↔ All (IsValid any_name) items
create-eq-ok_iff_example = create-eq-ok_iff any_name [] items

sdbus_method_callback_example :
    (k : MethodVTableItem ℕ) × (h : ℕ) × Contains (method k) items
    × (k.name ≡ stop)
    × (k.callback_handler ≡ some h)
    × (sdbus_method_callback no_errno first_text run made.0 stop
        ≡ some (reply_of no_errno first_text run h))
sdbus_method_callback_example =
    sdbus_method_callback_lem no_errno first_text run any_name [] items made.0 (method_named stop 2)
      made.1 (inr (inl refl))
