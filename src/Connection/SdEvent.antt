-- ===== src/Connection/SdEvent.antt =====
-- Attaching a connection to an sd-event loop: `attachSdEventLoop`, `detachSdEventLoop` and the
-- functions that make the event sources, of src/Connection.cpp. libsystemd is a parameter. A `Slot`
-- is a handle that is released when its owner goes, also when an exception passes.
use sdbus_cpp.Prelude.{
  ℤ, is_neg, errno_of, Bool, true, false, String, List, [], ◌∷◌, Result, ok, throw, errno_error,
  if◌then◌else◌,
}

-- The event sources: for the timer, for the bus and for the event descriptor.
pub data EventSource : Type 0 where
  timer bus_io event_io : EventSource

pub data SourceProperty : Type 0 where
  prepare_callback priority description : SourceProperty

-- Each function with its other arguments given, its result and the new state.
pub record SdEventApi : Type 1 where
  pub State : Type 0
  -- sd_event_ref of the event loop of the caller, or without one sd_event_default: whether there is
  -- an event loop.
  pub take_event : Bool → State → Bool × State
  -- sd_event_add_time and sd_event_add_io. The first argument is false for a null event loop.
  pub add_source : Bool → EventSource → State → ℤ × State
  -- sd_event_source_set_prepare, set_priority and set_description.
  pub set_property : EventSource → SourceProperty → State → ℤ × State
  -- sd_event_unref, and sd_event_source_disable_unref.
  pub release_event : State → State
  pub release_source : EventSource → State → State

-- The properties that each source is given, with the exceptions' texts.
abbrev pub properties_of : EventSource → List (SourceProperty × String)
properties_of timer =
    (priority, "Failed to set time event priority")
    ∷ (description, "Failed to set time event description")
    ∷ []
properties_of bus_io =
    (prepare_callback, "Failed to set prepare callback for IO event")
    ∷ (priority, "Failed to set priority for IO event")
    ∷ (description, "Failed to set priority for IO event")
    ∷ []
properties_of event_io =
    (priority, "Failed to set priority for internal event")
    ∷ (description, "Failed to set priority for IO event")
    ∷ []

abbrev pub add_failure : EventSource → String
add_failure timer = "Failed to add timer event"
add_failure bus_io = "Failed to add io event"
add_failure event_io = "Failed to add internal event"

-- What a program does with its connection.
pub data AttachOperation : Type 0 where
  attaches : Result (Unit {0}) → (given : Bool) → AttachOperation
  detaches : AttachOperation

module _ (api : SdEventApi) where
  open api use {State}

  -- A function that may throw, with the state that it leaves in either case.
  abbrev pub Action : Type 0
  Action = State → Result (Unit {0}) × State

  -- SDBUS_THROW_ERROR_IF(r < 0, what, -r)
  unfoldable pub checked : String → ℤ × State → Result (Unit {0}) × State
  checked what (r, s) = (if is_neg r then throw (errno_error (errno_of r) what) else ok tt, s)

  -- What follows runs if the action returned.
  unfoldable pub and_then : Action → Action → Action
  and_then first next s =
      let (r, s') = first s in elim r [ throw e ↦ (throw e, s') | ok _ ↦ next s' ]

  -- A slot that the action made is a local object of what follows: an exception of that releases it.
  unfoldable pub with_slot : Action → (State → State) → Action → Action
  with_slot make release next s =
      let (r, s₁) = make s in
      elim r [
        | throw e ↦ (throw e, s₁)
        | ok _ ↦
            let (r', s₂) = next s₁ in
            elim r' [ throw e ↦ (throw e, release s₂) | ok _ ↦ (ok tt, s₂) ]
      ]

  -- The caller's event loop is the pointer of the argument, if `given`, else null.
  unfoldable pub create_sd_event_slot : (given : Bool) → Action
  create_sd_event_slot given s =
      let (found, s') = api.take_event given s in
      (if found then ok tt else throw (errno_error 22 "Invalid sd_event handle"), s')

  unfoldable pub set_properties : EventSource → List (SourceProperty × String) → Action
  unfolding checked and_then
  set_properties source [] = λ s. (ok tt, s)
  set_properties source ((p, what) ∷ ps) =
      and_then (λ s. checked what (api.set_property source p s)) (set_properties source ps)

  -- createSdTimeEventSourceSlot, createSdIoEventSourceSlot and createSdInternalEventSourceSlot.
  unfoldable pub create_source_slot : (given : Bool) → EventSource → Action
  unfolding checked with_slot set_properties
  create_source_slot given source =
      with_slot (λ s. checked (add_failure source) (api.add_source given source s))
        (api.release_source source) (set_properties source (properties_of source))

  -- The four slots; `poll_data` is the result of getEventLoopPollData. The sources are made with the
  -- caller's pointer, also where createSdEventSlot has taken the default event loop.
  unfoldable pub create_slots : Result (Unit {0}) → (given : Bool) → Action
  unfolding with_slot create_sd_event_slot create_source_slot
  create_slots (throw e) given s = (throw e, s)
  create_slots (ok _) given s =
      with_slot (create_sd_event_slot given) api.release_event
        (with_slot (create_source_slot given timer) (api.release_source timer) (
          with_slot (create_source_slot given bus_io) (api.release_source bus_io)
            (create_source_slot given event_io)))
        s

  -- `sdEvent_`, if there is one, releases its slots, the last member first.
  unfoldable pub release_slots : Bool → State → State
  release_slots false s = s
  release_slots true s =
      api.release_event
        (api.release_source timer (api.release_source bus_io (api.release_source event_io s)))

  -- The first value says whether the connection is attached. New slots replace the old ones.
  unfoldable pub attach_sd_event_loop :
      Result (Unit {0}) → (given : Bool) → Bool → State → Bool × Result (Unit {0}) × State
  unfolding create_slots release_slots
  attach_sd_event_loop poll_data given attached s =
      let (r, s') = create_slots poll_data given s in
      elim r [ throw e ↦ (attached, throw e, s') | ok _ ↦ (true, ok tt, release_slots attached s') ]

  unfoldable pub detach_sd_event_loop : Bool → State → Bool × State
  unfolding release_slots
  detach_sd_event_loop attached s = (false, release_slots attached s)

  -- The result of an operation goes to the caller, who may then do another one.
  unfoldable pub attach_and_detach : List AttachOperation → Bool → State → Bool × State
  unfolding attach_sd_event_loop detach_sd_event_loop
  attach_and_detach [] attached s = (attached, s)
  attach_and_detach (attaches poll_data given ∷ ops) attached s =
      let r = attach_sd_event_loop poll_data given attached s in attach_and_detach ops r.0 r.2
  attach_and_detach (detaches ∷ ops) attached s =
      let r = detach_sd_event_loop attached s in attach_and_detach ops r.0 r.1
