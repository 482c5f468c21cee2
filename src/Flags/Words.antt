-- ===== src/Flags/Words.antt =====
-- What the words say that go to libsystemd.
use sdbus_cpp.Prelude.{ℕ, not, ◌&&◌, ◌≡◌, ◌≢◌, arith, ◌==◌}
use sdbus_cpp.Flags.{
  Flags, VtableBits, to_sd_bus_interface_flags, to_sd_bus_method_flags, to_sd_bus_property_flags,
  to_sd_bus_writable_property_flags, to_sd_bus_signal_flags,
}

-- The flags are bits of their own.
pub record AreDistinct (bits : VtableBits) : Type 0 where
  pub d_u : bits.deprecated_bit ≢ bits.unprivileged_bit
  pub d_n : bits.deprecated_bit ≢ bits.no_reply_bit
  pub d_c : bits.deprecated_bit ≢ bits.const_bit
  pub d_e : bits.deprecated_bit ≢ bits.emits_change_bit
  pub d_i : bits.deprecated_bit ≢ bits.emits_invalidation_bit
  pub u_n : bits.unprivileged_bit ≢ bits.no_reply_bit
  pub u_c : bits.unprivileged_bit ≢ bits.const_bit
  pub u_e : bits.unprivileged_bit ≢ bits.emits_change_bit
  pub u_i : bits.unprivileged_bit ≢ bits.emits_invalidation_bit
  pub c_e : bits.const_bit ≢ bits.emits_change_bit
  pub c_i : bits.const_bit ≢ bits.emits_invalidation_bit
  pub e_i : bits.emits_change_bit ≢ bits.emits_invalidation_bit

-- A method's word carries "deprecated" and "no reply" as they are set, and "unprivileged" when the
-- method is not marked privileged.
method_flags_lem :
    (bits : VtableBits) (f : Flags)
    → AreDistinct bits
    → let w = to_sd_bus_method_flags bits f in
      (w bits.deprecated_bit ≡ f.is_deprecated)
      × (w bits.unprivileged_bit ≡ not f.is_privileged)
      × (w bits.no_reply_bit ≡ f.is_no_reply)
unfolding to_sd_bus_method_flags
method_flags_lem bits f d = ground arith

-- A writable property's word says whether it is deprecated and unprivileged, and announces at most
-- one update behaviour: the first that is set of "emits change", "emits invalidation" and "const".
writable_property_flags_lem :
    (bits : VtableBits) (f : Flags)
    → AreDistinct bits
    → let w = to_sd_bus_writable_property_flags bits f in
      (w bits.deprecated_bit ≡ f.is_deprecated)
      × (w bits.unprivileged_bit ≡ not f.is_privileged)
      × (w bits.emits_change_bit ≡ f.is_change)
      × (w bits.emits_invalidation_bit ≡ (not f.is_change && f.is_invalidation))
      × (w bits.const_bit ≡ (not f.is_change && (not f.is_invalidation && f.is_const)))
unfolding to_sd_bus_writable_property_flags
writable_property_flags_lem bits f d = ground arith

-- The word of a read-only property is that of a writable one without "unprivileged", and the word of
-- an interface with the same flags is that of the writable property, bit by bit.
property_flags_lem :
    (bits : VtableBits) (f : Flags) (i : ℕ)
    → AreDistinct bits
    → (to_sd_bus_property_flags bits f i
        ≡ (to_sd_bus_writable_property_flags bits f i && not (bits.unprivileged_bit == i)))
      × (to_sd_bus_interface_flags bits f i ≡ to_sd_bus_writable_property_flags bits f i)
unfolding to_sd_bus_property_flags to_sd_bus_writable_property_flags to_sd_bus_interface_flags
property_flags_lem bits f i d = ground arith

-- A signal's word is "deprecated" or nothing.
signal_flags_lem :
    (bits : VtableBits) (f : Flags) (i : ℕ)
    → to_sd_bus_signal_flags bits f i ≡ (f.is_deprecated && (bits.deprecated_bit == i))
unfolding to_sd_bus_signal_flags
signal_flags_lem bits f i = ground arith

-- The words for libsystemd say what the flags say. Each carries "deprecated" as it is set. A method's
-- carries "no reply" as it is set, and, like that of a writable property, "unprivileged" when the
-- member is not marked privileged. A writable property's announces at most one update behaviour: the
-- first that is set of "emits change", "emits invalidation" and "const". A read-only property's is
-- that of a writable one without "unprivileged", and an interface's is that of a writable property
-- with the same flags, bit by bit. A signal's carries nothing but "deprecated".
pub to_sd_bus_flags_lem :
    (bits : VtableBits) (f : Flags) (i : ℕ)
    → AreDistinct bits
    → let m = to_sd_bus_method_flags bits f in
      let w = to_sd_bus_writable_property_flags bits f in
      ((m bits.deprecated_bit ≡ f.is_deprecated)
        × (m bits.unprivileged_bit ≡ not f.is_privileged)
        × (m bits.no_reply_bit ≡ f.is_no_reply))
      × ((w bits.deprecated_bit ≡ f.is_deprecated)
          × (w bits.unprivileged_bit ≡ not f.is_privileged)
          × (w bits.emits_change_bit ≡ f.is_change)
          × (w bits.emits_invalidation_bit ≡ (not f.is_change && f.is_invalidation))
          × (w bits.const_bit ≡ (not f.is_change && (not f.is_invalidation && f.is_const))))
      × (to_sd_bus_property_flags bits f i ≡ (w i && not (bits.unprivileged_bit == i)))
      × (to_sd_bus_interface_flags bits f i ≡ w i)
      × (to_sd_bus_signal_flags bits f i ≡ (f.is_deprecated && (bits.deprecated_bit == i)))
to_sd_bus_flags_lem bits f i d = (
  method_flags_lem bits f d,
  writable_property_flags_lem bits f d,
  (property_flags_lem bits f i d).0,
  (property_flags_lem bits f i d).1,
  signal_flags_lem bits f i,
)
