-- ===== src/Object/Register.antt =====
-- Registration of a vtable: `Object::addVTable` of src/Object.cpp and what it calls.
use sdbus_cpp.Prelude.{
  ℤ, is_neg, errno_of, Bool, true, false, not, ◌&&◌, Option, none, some, List, [], ◌∷◌, ◌++◌, map,
  Result, ok, ◌>>=◌, ◌>>◌, throw_error_if, if◌then◌else◌,
}
use sdbus_cpp.Flags.{
  default_flags, VtableBits, to_sd_bus_interface_flags, to_sd_bus_method_flags,
  to_sd_bus_signal_flags, to_sd_bus_property_flags, to_sd_bus_writable_property_flags,
}
use sdbus_cpp.Object.Names.{Name}
use sdbus_cpp.Object.Search.{sort_by_name}
use sdbus_cpp.Object.Items.{
  MethodVTableItem, SignalVTableItem, PropertyVTableItem, VTableItem, method, signal, property,
  interface_flags, MethodItem, SignalItem, PropertyItem, VTable, SdBusEntry, start, method_entry,
  signal_entry, read_only_property, writable_property, end,
}

-- Object::paramNamesToString: each name with a terminating zero.
unfoldable pub param_names_to_string : List Name → Name
param_names_to_string [] = []
param_names_to_string (n ∷ ns) = n ++ 0 ∷ param_names_to_string ns

abbrev pub is_some {ℓ} : {A : Type ℓ} → Option A → Bool
is_some none = false
is_some (some a) = true

-- The internal records.
unfoldable pub to_method_item : {H : Type 0} → MethodVTableItem H → MethodItem H
unfolding param_names_to_string
to_method_item m = record {
  name = m.name;
  input_signature = m.input_signature;
  output_signature = m.output_signature;
  param_names =
      param_names_to_string m.input_param_names ++ param_names_to_string m.output_param_names;
  callback = m.callback_handler;
  flags = m.flags;
}

unfoldable pub to_signal_item : SignalVTableItem → SignalItem
unfolding param_names_to_string
to_signal_item s = record {
  name = s.name;
  signature = s.signature;
  param_names = param_names_to_string s.param_names;
  flags = s.flags;
}

unfoldable pub to_property_item : {H : Type 0} → PropertyVTableItem H → PropertyItem H
to_property_item p = record {
  name = p.name;
  signature = p.signature;
  get_callback = p.getter;
  set_callback = p.setter;
  flags = p.flags;
}

-- The tests of names are libsystemd's: `sd_bus_member_name_is_valid` and
-- `sd_bus_interface_name_is_valid`. (The texts of the exceptions leave out the name.)
module _ {H : Type 0} (valid_member : Name → Bool) where
  unfoldable pub write_method_record : MethodVTableItem H → VTable H → Result (VTable H)
  unfolding to_method_item
  write_method_record m t = do
    throw_error_if (not (valid_member m.name)) "Invalid member name provided" 22
    throw_error_if (not (is_some m.callback_handler)) "Invalid method callback provided" 22
    ok (record t { methods = t.methods ++ to_method_item m ∷ [] })

  unfoldable pub write_signal_record : SignalVTableItem → VTable H → Result (VTable H)
  unfolding to_signal_item
  write_signal_record s t = do
    throw_error_if (not (valid_member s.name)) "Invalid member name provided" 22
    ok (record t { signals = t.signals ++ to_signal_item s ∷ [] })

  unfoldable pub write_property_record : PropertyVTableItem H → VTable H → Result (VTable H)
  unfolding to_property_item
  write_property_record p t = do
    throw_error_if (not (valid_member p.name)) "Invalid member name provided" 22
    throw_error_if (not (is_some p.getter) && not (is_some p.setter))
        "Invalid property callbacks provided" 22
    ok (record t { properties = t.properties ++ to_property_item p ∷ [] })

  -- The visitor of createInternalVTable.
  unfoldable pub write_record : VTableItem H → VTable H → Result (VTable H)
  unfolding write_method_record write_signal_record write_property_record
  write_record (method m) t = write_method_record m t
  write_record (signal s) t = write_signal_record s t
  write_record (property p) t = write_property_record p t
  write_record (interface_flags f) t = ok (record t { flags = f })

  unfoldable pub write_records : List (VTableItem H) → VTable H → Result (VTable H)
  unfolding write_record
  write_records [] t = ok t
  write_records (x ∷ xs) t = write_record x t >>= write_records xs

  -- Sorts the arrays for the search in the callbacks.
  unfoldable pub sort_records : VTable H → VTable H
  unfolding sort_by_name
  sort_records t = record t {
    methods = sort_by_name (λ (m : MethodItem H). m.name) t.methods;
    signals = sort_by_name (λ (s : SignalItem). s.name) t.signals;
    properties = sort_by_name (λ (p : PropertyItem H). p.name) t.properties;
  }

  abbrev pub empty_vtable : Name → VTable H
  empty_vtable interface = record {
    interface_name = interface;
    flags = default_flags;
    methods = [];
    signals = [];
    properties = [];
    sd_bus_vtable = [];
  }

  unfoldable pub create_internal_vtable : Name → List (VTableItem H) → Result (VTable H)
  unfolding write_records sort_records default_flags
  create_internal_vtable interface items = do
    t ← write_records items (empty_vtable interface)
    ok (sort_records t)

unfoldable pub signal_to_entry : VtableBits → SignalItem → SdBusEntry
signal_to_entry bits s =
    signal_entry s.name s.signature s.param_names (to_sd_bus_signal_flags bits s.flags)

module _ {H : Type 0} (bits : VtableBits) where
  unfoldable pub method_to_entry : MethodItem H → SdBusEntry
  method_to_entry m =
      method_entry m.name m.input_signature m.output_signature m.param_names
        (to_sd_bus_method_flags bits m.flags)

  unfoldable pub property_to_entry : PropertyItem H → SdBusEntry
  property_to_entry p =
      if not (is_some p.set_callback)
      then read_only_property p.name p.signature (to_sd_bus_property_flags bits p.flags)
      else writable_property p.name p.signature (to_sd_bus_writable_property_flags bits p.flags)

  unfoldable pub create_internal_sd_bus_vtable : VTable H → List SdBusEntry
  unfolding method_to_entry signal_to_entry property_to_entry
  create_internal_sd_bus_vtable t =
      start (to_sd_bus_interface_flags bits t.flags)
      ∷ (map method_to_entry t.methods
          ++ (map (signal_to_entry bits) t.signals
              ++ (map property_to_entry t.properties ++ end ∷ [])))

-- Object::addVTable; `register` is `sd_bus_add_object_vtable` with its result.
unfoldable pub add_vtable :
    {H : Type 0} (valid_member valid_interface : Name → Bool) (bits : VtableBits)
    (register : VTable H → ℤ)
    → Name
    → List (VTableItem H)
    → Result (VTable H)
unfolding create_internal_vtable create_internal_sd_bus_vtable
add_vtable valid_member valid_interface bits register interface items = do
  throw_error_if (not (valid_interface interface)) "Invalid interface name provided" 22
  t ← create_internal_vtable valid_member interface items
  let full = record t { sd_bus_vtable = create_internal_sd_bus_vtable bits t }
  throw_error_if (is_neg (register full)) "Failed to register object vtable"
      (errno_of (register full))
  ok full
