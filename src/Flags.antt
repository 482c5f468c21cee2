-- ===== src/Flags.antt =====
-- include/sdbus-c++/Flags.h and src/Flags.cpp: the flags of interfaces, methods, signals and
-- properties, and their translation to the flags of a libsystemd vtable.
pub mod Update
pub mod Words
mod Tests
use sdbus_cpp.Prelude.{ℕ, Bool, true, false, not, ◌&&◌, ◌||◌, ◌==◌, if◌then◌else◌}

pub data GeneralFlag : Type 0 where
  deprecated method_no_reply privileged : GeneralFlag

pub data PropertyUpdateBehaviorFlag : Type 0 where
  emits_change_signal emits_invalidation_signal emits_no_signal : PropertyUpdateBehaviorFlag
  const_property_value : PropertyUpdateBehaviorFlag

-- The bits of `flags_`, from DEPRECATED to CONST_PROPERTY_VALUE.
pub record Flags : Type 0 where
  pub is_deprecated : Bool
  pub is_no_reply : Bool
  pub is_privileged : Bool
  pub is_change : Bool
  pub is_invalidation : Bool
  pub is_no_signal : Bool
  pub is_const : Bool

-- The constructor: EMITS_CHANGE_SIGNAL is on by default.
unfoldable pub default_flags : Flags
default_flags = record {
  is_deprecated = false;
  is_no_reply = false;
  is_privileged = false;
  is_change = true;
  is_invalidation = false;
  is_no_signal = false;
  is_const = false;
}

-- Flags::set(GeneralFlags, bool)
unfoldable pub set_general : GeneralFlag → Bool → Flags → Flags
set_general deprecated v f = record f { is_deprecated = v }
set_general method_no_reply v f = record f { is_no_reply = v }
set_general privileged v f = record f { is_privileged = v }

unfoldable pub clear_behavior : Flags → Flags
clear_behavior f = record f {
  is_change = false;
  is_invalidation = false;
  is_no_signal = false;
  is_const = false;
}

-- Flags::set(PropertyUpdateBehaviorFlags, bool): all four behaviours are cleared first.
unfoldable pub set_behavior : PropertyUpdateBehaviorFlag → Bool → Flags → Flags
unfolding clear_behavior
set_behavior emits_change_signal v f = record (clear_behavior f) { is_change = v }
set_behavior emits_invalidation_signal v f = record (clear_behavior f) { is_invalidation = v }
set_behavior emits_no_signal v f = record (clear_behavior f) { is_no_signal = v }
set_behavior const_property_value v f = record (clear_behavior f) { is_const = v }

-- Flags::test
unfoldable pub test_general : GeneralFlag → Flags → Bool
test_general deprecated f = f.is_deprecated
test_general method_no_reply f = f.is_no_reply
test_general privileged f = f.is_privileged

unfoldable pub test_behavior : PropertyUpdateBehaviorFlag → Flags → Bool
test_behavior emits_change_signal f = f.is_change
test_behavior emits_invalidation_signal f = f.is_invalidation
test_behavior emits_no_signal f = f.is_no_signal
test_behavior const_property_value f = f.is_const

-- A `uint64_t` of flags, bit by bit.
abbrev pub Word : Type 0
Word = ℕ → Bool

abbrev pub no_flags : Word
no_flags i = false

-- `word |= 1 << k` if the condition holds.
abbrev pub or_bit_if : Bool → ℕ → Word → Word
or_bit_if b k w i = (b && k == i) || w i

-- The positions of the bits SD_BUS_VTABLE_*, which libsystemd defines.
pub record VtableBits : Type 0 where
  pub deprecated_bit : ℕ
  pub unprivileged_bit : ℕ
  pub no_reply_bit : ℕ
  pub const_bit : ℕ
  pub emits_change_bit : ℕ
  pub emits_invalidation_bit : ℕ

module _ (bits : VtableBits) where
  -- The chain of `else if` over the update behaviours.
  unfoldable pub or_behavior : Flags → Word → Word
  or_behavior f w =
      if f.is_change
      then or_bit_if true bits.emits_change_bit w
      else if f.is_invalidation
      then or_bit_if true bits.emits_invalidation_bit w
      else if f.is_const
      then or_bit_if true bits.const_bit w
      else w

  unfoldable pub to_sd_bus_interface_flags : Flags → Word
  unfolding or_behavior
  to_sd_bus_interface_flags f = or_behavior f (
      or_bit_if (not f.is_privileged) bits.unprivileged_bit
        (or_bit_if f.is_deprecated bits.deprecated_bit no_flags))

  unfoldable pub to_sd_bus_method_flags : Flags → Word
  to_sd_bus_method_flags f = or_bit_if f.is_no_reply bits.no_reply_bit (
      or_bit_if (not f.is_privileged) bits.unprivileged_bit
        (or_bit_if f.is_deprecated bits.deprecated_bit no_flags))

  unfoldable pub to_sd_bus_signal_flags : Flags → Word
  to_sd_bus_signal_flags f = or_bit_if f.is_deprecated bits.deprecated_bit no_flags

  unfoldable pub to_sd_bus_property_flags : Flags → Word
  unfolding or_behavior
  to_sd_bus_property_flags f =
      or_behavior f (or_bit_if f.is_deprecated bits.deprecated_bit no_flags)

  unfoldable pub to_sd_bus_writable_property_flags : Flags → Word
  unfolding to_sd_bus_property_flags
  to_sd_bus_writable_property_flags f =
      or_bit_if (not f.is_privileged) bits.unprivileged_bit (to_sd_bus_property_flags f)
