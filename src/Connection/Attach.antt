-- ===== src/Connection/Attach.antt =====
-- Nothing is leaked when a connection is attached to an event loop, or fails to be.
use sdbus_cpp.Prelude.{
  ℕ, ◌+◌, ◌-◌, is_neg, Bool, true, false, List, [], ◌∷◌, Result, ok, throw, ◌≡◌, refl, inl, inr,
  ◌⊎◌, arith, if◌then◌else◌,
}
use sdbus_cpp.Connection.SdEvent.{
  AttachOperation, attaches, detaches, attach_and_detach, EventSource, timer, bus_io, event_io,
  properties_of, add_failure, SdEventApi, Action, checked, with_slot, create_sd_event_slot,
  set_properties, create_source_slot, create_slots, release_slots, attach_sd_event_loop,
  detach_sd_event_loop,
}
use sdbus_cpp.Connection.Sources.{four_slots, create_slots-Makes}
use sdbus_cpp.Connection.Slots.{Handle, SdEventLaws, Adds}

abbrev pub has_returned : Result (Unit {0}) → Bool
has_returned (ok x) = true
has_returned (throw e) = false

module _ (api : SdEventApi) (laws : SdEventLaws api) where
  open api use {State}
  open laws use {held}

  -- The references of the connection beside those that others hold.
  abbrev pub slots_of : Bool → Handle → ℕ
  slots_of attached h = if attached then four_slots api laws h else 0

  release_slots-held :
      (attached : Bool) (s : State) (h : Handle)
      → held h (release_slots api attached s) ≡ held h s - slots_of attached h
  unfolding release_slots
  release_slots-held false s h = omega arith
  release_slots-held true s h =
      let after_event = api.release_source event_io s in
      let after_bus = api.release_source bus_io after_event in
      omega (
        arith,
        laws.release_source_lem event_io h s,
        laws.release_source_lem bus_io h after_event,
        laws.release_source_lem timer h after_bus,
        laws.release_event_lem h (api.release_source timer after_bus),
      )

  abbrev Holds : (Handle → ℕ) → Bool × State → Type 0
  Holds others (attached, s) = (h : Handle) → held h s ≡ others h + slots_of attached h

  attach-Holds :
      (others : Handle → ℕ) (poll_data : Result (Unit {0})) (given attached : Bool) (s : State)
      → Holds others (attached, s)
      → let r = attach_sd_event_loop api poll_data given attached s in Holds others (r.0, r.2)
  unfolding attach_sd_event_loop
  attach-Holds others poll_data given attached s holds =
      go (create_slots api poll_data given s) (create_slots-Makes api laws poll_data given s)
    where
      go :
          (r : Result (Unit {0}) × State)
          → Adds api laws (four_slots api laws) s r
          → let r' = elim r.0 as (λ x. Bool × Result (Unit {0}) × State) [
            | throw e ↦ (attached, throw e, r.1)
            | ok x ↦ (true, ok tt, release_slots api attached r.1)
          ] in
            Holds others (r'.0, r'.2)
      go (ok x, s') added = λ h. omega (arith, added h, holds h, release_slots-held attached s' h)
      go (throw e, s') kept = λ h. omega (arith, kept h, holds h)

  detach-Holds :
      (others : Handle → ℕ) (attached : Bool) (s : State)
      → Holds others (attached, s)
      → Holds others (detach_sd_event_loop api attached s)
  unfolding detach_sd_event_loop
  detach-Holds others attached s holds =
      λ h. omega (arith, holds h, release_slots-held attached s h)

  attach_and_detach-Holds :
      (ops : List AttachOperation) (others : Handle → ℕ) (attached : Bool) (s : State)
      → Holds others (attached, s)
      → Holds others (attach_and_detach api ops attached s)
  unfolding attach_and_detach
  attach_and_detach-Holds [] others attached s holds = holds
  attach_and_detach-Holds (attaches poll_data given ∷ ops) others attached s holds =
      let r = attach_sd_event_loop api poll_data given attached s in
      attach_and_detach-Holds ops others r.0 r.2
        (attach-Holds others poll_data given attached s holds)
  attach_and_detach-Holds (detaches ∷ ops) others attached s holds =
      let r = detach_sd_event_loop api attached s in
      attach_and_detach-Holds ops others r.0 r.1 (detach-Holds others attached s holds)

  -- A program attaches its connection to event loops and detaches it in any order, from an unattached
  -- connection on. After that the connection holds a reference to an event loop and one to each of
  -- its three sources if it is attached, and none otherwise, beside the references that there were:
  -- whichever calls failed, no reference is leaked and none is released twice.
  pub attach_and_detach_lem :
      (ops : List AttachOperation) (s : State) (h : Handle)
      → let r = attach_and_detach api ops false s in held h r.1 ≡ held h s + slots_of r.0 h
  attach_and_detach_lem ops s h =
      attach_and_detach-Holds ops (λ h. held h s) false s (λ h. omega arith) h

  with_slot-Throws :
      (make next : Action api) (release : State → State)
      → ((s : State) → has_returned (make s).0 ≡ false ⊎ has_returned (next (make s).1).0 ≡ false)
      → (s : State) → has_returned (with_slot api make release next s).0 ≡ false
  unfolding with_slot
  with_slot-Throws make next release fails s = go (make s) (fails s)
    where
      go :
          (r : Result (Unit {0}) × State)
          → has_returned r.0 ≡ false ⊎ has_returned (next r.1).0 ≡ false
          → has_returned
              (elim r.0 as (λ x. Result (Unit {0}) × State) [
                | throw e ↦ (throw e, r.1)
                | ok x ↦ (elim (next r.1).0 as (λ x. Result (Unit {0}) × State) [
                  | throw e ↦ (throw e, release (next r.1).1)
                  | ok x ↦ (ok tt, (next r.1).1)
                ])
              ]).0
            ≡ false
      go (throw e, s₁) f = refl
      go (ok x, s₁) (inl e) = cc
      go (ok x, s₁) (inr e) = behind (next s₁) e
        where
          behind :
              (r : Result (Unit {0}) × State)
              → has_returned r.0 ≡ false
              → has_returned
                  (elim r.0 as (λ x. Result (Unit {0}) × State) [
                    | throw e ↦ (throw e, release r.1)
                    | ok x ↦ (ok tt, r.1)
                  ]).0
                ≡ false
          behind (throw e, s₂) f = refl
          behind (ok x, s₂) f = cc

  create_slots-null :
      ((source : EventSource) (s : State) → is_neg (api.add_source false source s).0 ≡ true)
      → (poll_data : Result (Unit {0})) (s : State)
      → has_returned (create_slots api poll_data false s).0 ≡ false
  unfolding create_slots create_source_slot checked
  create_slots-null refused (throw e) s = refl
  create_slots-null refused (ok x) s =
      with_slot-Throws (create_sd_event_slot api false)
        (with_slot api (create_source_slot api false timer) (api.release_source timer) (
          with_slot api (create_source_slot api false bus_io) (api.release_source bus_io)
            (create_source_slot api false event_io)))
        api.release_event
        (λ s. inr (
          with_slot-Throws (create_source_slot api false timer)
            (with_slot api (create_source_slot api false bus_io) (api.release_source bus_io)
              (create_source_slot api false event_io))
            (api.release_source timer)
            (λ s. inl (
              with_slot-Throws (λ s. checked api (add_failure timer) (api.add_source false timer s))
                (set_properties api timer (properties_of timer)) (api.release_source timer)
                (λ s. inl (rw (refused timer s) refl)) s))
            (create_sd_event_slot api false s).1))
        s

  -- Attaching without an event loop throws, whether or not there is a default event loop, and leaves
  -- the connection attached or not as it was, if libsystemd refuses to add a source to the null
  -- event loop, as it documents.
  pub attach_null_lem :
      (poll_data : Result (Unit {0})) (attached : Bool) (s : State)
      → ((source : EventSource) (s : State) → is_neg (api.add_source false source s).0 ≡ true)
      → let r = attach_sd_event_loop api poll_data false attached s in
        (has_returned r.1 ≡ false) × (r.0 ≡ attached)
  unfolding attach_sd_event_loop
  attach_null_lem poll_data attached s refused =
      go (create_slots api poll_data false s) (create_slots-null refused poll_data s)
    where
      go :
          (r : Result (Unit {0}) × State)
          → has_returned r.0 ≡ false
          → let r' = elim r.0 as (λ x. Bool × Result (Unit {0}) × State) [
            | throw e ↦ (attached, throw e, r.1)
            | ok x ↦ (true, ok tt, release_slots api attached r.1)
          ] in
            (has_returned r'.1 ≡ false) × (r'.0 ≡ attached)
      go (throw e, s') f = (refl, refl)
      go (ok x, s') f = cc
