-- ===== src/Remote/PropertyTests.antt =====
-- A service with a property that holds a number below ten, over a bus of tokens.
use sdbus_cpp.Prelude.{
  ℕ, Bool, true, Option, none, some, List, [], ◌∷◌, ◌++◌, ltb, Result, ok, throw, error,
  if◌then◌else◌,
}
use sdbus_cpp.Flags.{default_flags, VtableBits}
use sdbus_cpp.Message.Types.{basic, uint32, string, item, text, Token}
use sdbus_cpp.Message.Variant.{variant_contents}
use sdbus_cpp.Message.TokenBus.{token_bus}
use sdbus_cpp.Object.Names.{Name}
use sdbus_cpp.Object.Items.{PropertyVTableItem, VTableItem, property}
use sdbus_cpp.Remote.Property.{PropertyHandler, with_getter, with_setter}
use sdbus_cpp.Remote.SmallProperties.{bytes}

abbrev LevelHandler : Type 0
LevelHandler = PropertyHandler token_bus ℕ

abbrev get_level : ℕ → Result ℕ × ℕ
get_level s = (ok s, s)

abbrev set_level : ℕ → ℕ → Result (Unit {0}) × ℕ
set_level x s = if ltb x 10 then (ok tt, x) else (throw (error "org.example.Error" "too high"), s)

abbrev unset : PropertyVTableItem LevelHandler
unset = record {
  name = bytes "Level";
  signature = [];
  getter = none;
  setter = none;
  flags = default_flags;
}

abbrev level : PropertyVTableItem LevelHandler
level =
    with_setter token_bus ℕ (basic uint32) 9 set_level
      (with_getter token_bus ℕ (basic uint32) get_level unset)

abbrev level_items : List (VTableItem LevelHandler)
level_items = property level ∷ []

abbrev any_name : Name → Bool
any_name n = true

abbrev property_of : VTableItem LevelHandler → Option (PropertyVTableItem LevelHandler)
property_of (property p) = some p
property_of _ = none

abbrev bits : VtableBits
bits = record {
  deprecated_bit = 0;
  unprivileged_bit = 2;
  no_reply_bit = 3;
  const_bit = 4;
  emits_change_bit = 5;
  emits_invalidation_bit = 6;
}

abbrev names_of : List Token
names_of = item string (text "org.example") ∷ item string (text "Level") ∷ []

abbrev get_message : token_bus.Msg
get_message = ([], names_of)

-- The Variant of the level 7.
abbrev level_variant : token_bus.Msg
level_variant = ([], variant_contents (basic uint32) 7)

abbrev set_message : token_bus.Msg
set_message = ([], names_of ++ variant_contents (basic uint32) 7)
