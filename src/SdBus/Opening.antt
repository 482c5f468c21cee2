-- ===== src/SdBus/Opening.antt =====
-- The functions of src/SdBus.cpp that open a connection in several calls of libsystemd:
-- `sd_bus_open_user_with_address`, both `sd_bus_open_direct` and `sd_bus_open_server`. libsystemd is a
-- parameter: the calls on the new bus, with their other arguments given.
use sdbus_cpp.Prelude.{
  ℕ, ◌+◌, ℤ, pos, is_neg, Bool, true, false, List, [], ◌∷◌, ◌≡◌, refl, arith, Bool-cases, inl, inr,
  if◌then◌else◌,
}

pub data OpeningCall : Type 0 where
  set_address set_bus_client set_trusted set_fd randomize_id set_server start_bus : OpeningCall

pub data OpeningFunction : Type 0 where
  open_user_with_address open_direct_to_address open_direct_to_fd open_server : OpeningFunction

unfoldable pub opening_calls : OpeningFunction → List OpeningCall
opening_calls open_user_with_address = set_address ∷ set_bus_client ∷ set_trusted ∷ start_bus ∷ []
opening_calls open_direct_to_address = set_address ∷ start_bus ∷ []
opening_calls open_direct_to_fd = set_fd ∷ start_bus ∷ []
opening_calls open_server = set_fd ∷ randomize_id ∷ set_server ∷ start_bus ∷ []

pub record OpeningApi : Type 1 where
  pub State : Type 0
  pub new_bus : State → ℤ × State
  pub call_on_bus : OpeningCall → State → ℤ × State

module _ (api : OpeningApi) where
  open api use {State}

  -- The result, whether the bus is given to the caller, and the new state.
  unfoldable pub call_in_turn : List OpeningCall → State → ℤ × Bool × State
  call_in_turn [] s = (pos 0, true, s)
  call_in_turn (c ∷ cs) s =
      let (r, s') = api.call_on_bus c s in
      let rest = call_in_turn cs s' in if is_neg r then (r, false, s') else rest

  unfoldable pub open_by : OpeningFunction → State → ℤ × Bool × State
  unfolding call_in_turn opening_calls
  open_by function s =
      let (r, s') = api.new_bus s in
      if is_neg r then (r, false, s') else call_in_turn (opening_calls function) s'

  module _ (held : State → ℕ)
      (new_bus_lem : (s : State)
        → held (api.new_bus s).1 ≡ held s + (if is_neg (api.new_bus s).0 then 0 else 1))
      (call_on_bus_lem : (c : OpeningCall) (s : State)
        → held (api.call_on_bus c s).1 ≡ held s) where
    call_in_turn-held : (cs : List OpeningCall) (s : State) → held (call_in_turn cs s).2 ≡ held s
    unfolding call_in_turn
    call_in_turn-held [] s = refl
    call_in_turn-held (c ∷ cs) s =
        let rest = call_in_turn-held cs (api.call_on_bus c s).1 in
        elim (Bool-cases (is_neg (api.call_on_bus c s).0)) [
          | inl e ↦ rw (call_in_turn, e) (call_on_bus_lem c s)
          | inr e ↦ rw (call_in_turn, e) (omega (arith, rest, call_on_bus_lem c s))
        ]

    -- A bus that was made stays, also where a later call fails and the caller is not given it.
    open_by-held :
        (function : OpeningFunction) (s : State)
        → held (open_by function s).2 ≡ held s + (if is_neg (api.new_bus s).0 then 0 else 1)
    unfolding open_by
    open_by-held function s =
        let made = new_bus_lem s in
        let kept = call_in_turn-held (opening_calls function) (api.new_bus s).1 in
        elim (Bool-cases (is_neg (api.new_bus s).0)) [
          | inl e ↦ rw (open_by, e) (rw e at made)
          | inr e ↦ rw (open_by, e) (omega (arith, kept, rw e at made))
        ]
