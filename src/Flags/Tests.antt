-- ===== src/Flags/Tests.antt =====
-- The flags at concrete values. The positions of the bits are those of sd-bus-vtable.h.
use sdbus_cpp.Prelude.{true, false, not, ◌&&◌, ◌≡◌, arith, List, [], ◌∷◌, ◌==◌}
use sdbus_cpp.Flags.{
  VtableBits, deprecated, privileged, const_property_value, emits_change_signal, default_flags,
  test_general, GeneralFlag, to_sd_bus_method_flags, to_sd_bus_writable_property_flags,
  to_sd_bus_property_flags, to_sd_bus_interface_flags, to_sd_bus_signal_flags,
}
use sdbus_cpp.Flags.Update.{
  Setting, general, behavior, apply_all, Behaves, apply_all_default, last_behavior, last_value,
}
use sdbus_cpp.Flags.Words.{AreDistinct, to_sd_bus_flags_lem}

abbrev systemd_bits : VtableBits
systemd_bits = record {
  deprecated_bit = 0;
  unprivileged_bit = 2;
  no_reply_bit = 3;
  const_bit = 4;
  emits_change_bit = 5;
  emits_invalidation_bit = 6;
}

systemd_bits-AreDistinct : AreDistinct systemd_bits
systemd_bits-AreDistinct = omega arith

abbrev settings : List Setting
settings = general deprecated true ∷ behavior const_property_value ∷ general privileged true ∷ []

apply_all_default_example :
    Behaves (last_behavior emits_change_signal settings) (apply_all settings default_flags)
    × ((g : GeneralFlag)
        → test_general g (apply_all settings default_flags) ≡ last_value g false settings)
apply_all_default_example = apply_all_default settings

to_sd_bus_flags_example :
    let f = default_flags in
    let m = to_sd_bus_method_flags systemd_bits f in
    let w = to_sd_bus_writable_property_flags systemd_bits f in
    ((m 0 ≡ f.is_deprecated) × (m 2 ≡ not f.is_privileged) × (m 3 ≡ f.is_no_reply))
    × ((w 0 ≡ f.is_deprecated)
        × (w 2 ≡ not f.is_privileged)
        × (w 5 ≡ f.is_change)
        × (w 6 ≡ (not f.is_change && f.is_invalidation))
        × (w 4 ≡ (not f.is_change && (not f.is_invalidation && f.is_const))))
    × (to_sd_bus_property_flags systemd_bits f 2
        ≡ (w 2 && not (systemd_bits.unprivileged_bit == 2)))
    × (to_sd_bus_interface_flags systemd_bits f 2 ≡ w 2)
    × (to_sd_bus_signal_flags systemd_bits f 2
        ≡ (f.is_deprecated && (systemd_bits.deprecated_bit == 2)))
to_sd_bus_flags_example = to_sd_bus_flags_lem systemd_bits default_flags 2 systemd_bits-AreDistinct
