-- ===== src/Connection/Sources.antt =====
-- The slots of an event loop and of its sources: what the functions that make them add.
use sdbus_cpp.Prelude.{
  ℕ, ◌+◌, Bool, String, List, [], ◌∷◌, Result, ok, throw, refl, ap, Bool-cases, inl, inr, arith,
  if◌then◌else◌,
}
use sdbus_cpp.Connection.SdEvent.{
  EventSource, timer, bus_io, event_io, SourceProperty, properties_of, add_failure, SdEventApi,
  checked, with_slot, create_sd_event_slot, set_properties, create_source_slot, create_slots,
}
use sdbus_cpp.Connection.Slots.{
  Handle, event_loop, source_for, one, SdEventLaws, Makes, Releases, with_slot-Makes, checked-Makes,
  and_then-Makes,
}

module _ (api : SdEventApi) (laws : SdEventLaws api) where
  open api use {State}
  open laws use {held}

  set_properties-Makes :
      (source : EventSource) (ps : List (SourceProperty × String))
      → Makes api laws (set_properties api source ps) (λ h. 0)
  unfolding set_properties
  set_properties-Makes source [] = λ s h. omega arith
  set_properties-Makes source ((p, what) ∷ ps) =
      and_then-Makes api laws (λ s. checked api what (api.set_property source p s))
        (set_properties api source ps)
        (checked-Makes api laws what (api.set_property source p) (λ h. 0)
          (λ s h. ground (arith, laws.set_property_lem source p h s)))
        (set_properties-Makes source ps)

  create_source_slot-Makes :
      (given : Bool) (source : EventSource)
      → Makes api laws (create_source_slot api given source) (λ h. one (source_for source) h + 0)
  unfolding create_source_slot
  create_source_slot-Makes given source =
      with_slot-Makes api laws
        (λ s. checked api (add_failure source) (api.add_source given source s))
        (set_properties api source (properties_of source)) (api.release_source source)
        (one (source_for source)) (λ h. 0)
        (checked-Makes api laws (add_failure source) (api.add_source given source)
          (one (source_for source)) (λ s h. laws.add_source_lem given source h s))
        (λ s h. laws.release_source_lem source h s)
        (set_properties-Makes source (properties_of source))

  create_sd_event_slot-Makes :
      (given : Bool) → Makes api laws (create_sd_event_slot api given) (one event_loop)
  unfolding create_sd_event_slot
  create_sd_event_slot-Makes given s = elim (Bool-cases (api.take_event given s).0) [
    | inl e ↦
        rw (create_sd_event_slot, e)
          (λ h.
            omega
              (arith, laws.take_event_lem given h s, ap (λ b. if b then one event_loop h else 0) e))
    | inr e ↦
        rw (create_sd_event_slot, e)
          (λ h.
            omega
              (arith, laws.take_event_lem given h s, ap (λ b. if b then one event_loop h else 0) e))
  ]

  -- The references of an attached connection.
  abbrev pub four_slots : Handle → ℕ
  four_slots h =
      one event_loop h
      + (one (source_for timer) h
          + 0
          + (one (source_for bus_io) h + 0 + (one (source_for event_io) h + 0)))

  release_source_again :
      (source : EventSource)
      → Releases api laws (api.release_source source) (λ h. one (source_for source) h + 0)
  release_source_again source s h = ground (arith, laws.release_source_lem source h s)

  pub create_slots-Makes :
      (poll_data : Result (Unit {0})) (given : Bool)
      → Makes api laws (create_slots api poll_data given) four_slots
  unfolding create_slots
  create_slots-Makes (throw e) given = λ s h. refl
  create_slots-Makes (ok x) given =
      with_slot-Makes api laws (create_sd_event_slot api given)
        (with_slot api (create_source_slot api given timer) (api.release_source timer) (
          with_slot api (create_source_slot api given bus_io) (api.release_source bus_io)
            (create_source_slot api given event_io)))
        api.release_event (one event_loop)
        (λ h.
          one (source_for timer) h
          + 0
          + (one (source_for bus_io) h + 0 + (one (source_for event_io) h + 0)))
        (create_sd_event_slot-Makes given) (λ s h. laws.release_event_lem h s)
        (with_slot-Makes api laws (create_source_slot api given timer)
          (with_slot api (create_source_slot api given bus_io) (api.release_source bus_io)
            (create_source_slot api given event_io))
          (api.release_source timer) (λ h. one (source_for timer) h + 0)
          (λ h. one (source_for bus_io) h + 0 + (one (source_for event_io) h + 0))
          (create_source_slot-Makes given timer) (λ s h. release_source_again timer s h)
          (with_slot-Makes api laws (create_source_slot api given bus_io)
            (create_source_slot api given event_io) (api.release_source bus_io)
            (λ h. one (source_for bus_io) h + 0) (λ h. one (source_for event_io) h + 0)
            (create_source_slot-Makes given bus_io) (λ s h. release_source_again bus_io s h)
            (create_source_slot-Makes given event_io)))
