-- ===== src/Object/Items.antt =====
-- The records of a vtable: include/sdbus-c++/VTableItems.h, `Object::VTable` of src/Object.h and the
-- entries that src/VTableUtils.c makes for libsystemd. `H` is the type of the client's handlers; an
-- empty `std::function` is `none`.
use sdbus_cpp.Prelude.{Option, List}
use sdbus_cpp.Flags.{Flags, Word}
use sdbus_cpp.Object.Names.{Name}

pub record MethodVTableItem (H : Type 0) : Type 0 where
  pub name : Name
  pub input_signature : Name
  pub input_param_names : List Name
  pub output_signature : Name
  pub output_param_names : List Name
  pub callback_handler : Option H
  pub flags : Flags

pub record SignalVTableItem : Type 0 where
  pub name : Name
  pub signature : Name
  pub param_names : List Name
  pub flags : Flags

pub record PropertyVTableItem (H : Type 0) : Type 0 where
  pub name : Name
  pub signature : Name
  pub getter : Option H
  pub setter : Option H
  pub flags : Flags

pub data VTableItem (H : Type 0) : Type 0 where
  method : MethodVTableItem H → VTableItem H
  signal : SignalVTableItem → VTableItem H
  property : PropertyVTableItem H → VTableItem H
  interface_flags : Flags → VTableItem H

pub record MethodItem (H : Type 0) : Type 0 where
  pub name : Name
  pub input_signature : Name
  pub output_signature : Name
  pub param_names : Name
  pub callback : Option H
  pub flags : Flags

pub record SignalItem : Type 0 where
  pub name : Name
  pub signature : Name
  pub param_names : Name
  pub flags : Flags

pub record PropertyItem (H : Type 0) : Type 0 where
  pub name : Name
  pub signature : Name
  pub get_callback : Option H
  pub set_callback : Option H
  pub flags : Flags

-- An `sd_bus_vtable` entry: its kind, its texts and its flags. All methods share one handler, and so
-- do all getters and all setters.
pub data SdBusEntry : Type 0 where
  start : Word → SdBusEntry
  method_entry : (member signature result names : Name) → Word → SdBusEntry
  signal_entry : (member signature names : Name) → Word → SdBusEntry
  read_only_property : (member signature : Name) → Word → SdBusEntry
  writable_property : (member signature : Name) → Word → SdBusEntry
  end : SdBusEntry

pub record VTable (H : Type 0) : Type 0 where
  pub interface_name : Name
  pub flags : Flags
  pub methods : List (MethodItem H)
  pub signals : List SignalItem
  pub properties : List (PropertyItem H)
  pub sd_bus_vtable : List SdBusEntry
