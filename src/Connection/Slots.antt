-- ===== src/Connection/Slots.antt =====
-- The slots of an event loop and of its sources: what the functions that make them, in
-- src/Connection.cpp, add to the references that a program holds.
use sdbus_cpp.Prelude.{
  ℕ, ℤ, ◌+◌, ◌-◌, is_neg, Bool, String, Result, ok, throw, ◌≡◌, ap, Bool-cases, inl, inr, arith,
  if◌then◌else◌,
}
use sdbus_cpp.Connection.SdEvent.{
  EventSource, timer, bus_io, event_io, SourceProperty, SdEventApi, Action, checked, and_then,
  with_slot,
}

-- What libsystemd hands out references to.
pub data Handle : Type 0 where
  event_loop : Handle
  source_for : EventSource → Handle

-- One for the handle itself.
unfoldable pub one : Handle → Handle → ℕ
one event_loop event_loop = 1
one (source_for timer) (source_for timer) = 1
one (source_for bus_io) (source_for bus_io) = 1
one (source_for event_io) (source_for event_io) = 1
one _ _ = 0

-- What libsystemd documents: the functions that give a reference give one if they succeed, those that
-- release one release it, and no other changes the references.
pub record SdEventLaws (api : SdEventApi) : Type 0 where
  pub held : Handle → api.State → ℕ
  pub take_event_lem :
      (given : Bool) (h : Handle) (s : api.State)
      → held h (api.take_event given s).1
        ≡ held h s + (if (api.take_event given s).0 then one event_loop h else 0)
  pub add_source_lem :
      (given : Bool) (source : EventSource) (h : Handle) (s : api.State)
      → held h (api.add_source given source s).1
        ≡ held h s
          + (if is_neg (api.add_source given source s).0 then 0 else one (source_for source) h)
  pub set_property_lem :
      (source : EventSource) (p : SourceProperty) (h : Handle) (s : api.State)
      → held h (api.set_property source p s).1 ≡ held h s
  pub release_event_lem :
      (h : Handle) (s : api.State) → held h (api.release_event s) ≡ held h s - one event_loop h
  pub release_source_lem :
      (source : EventSource) (h : Handle) (s : api.State)
      → held h (api.release_source source s) ≡ held h s - one (source_for source) h

module _ (api : SdEventApi) (laws : SdEventLaws api) where
  open api use {State}
  open laws use {held}

  -- What an outcome has added to the references: these if it returned, and none otherwise.
  abbrev pub Adds : (Handle → ℕ) → State → Result (Unit {0}) × State → Type 0
  Adds n s (ok x, s') = (h : Handle) → held h s' ≡ held h s + n h
  Adds n s (throw e, s') = (h : Handle) → held h s' ≡ held h s

  -- So does the action in every state.
  abbrev pub Makes : Action api → (Handle → ℕ) → Type 0
  Makes f n = (s : State) → Adds n s (f s)

  abbrev pub Releases : (State → State) → (Handle → ℕ) → Type 0
  Releases f n = (s : State) (h : Handle) → held h (f s) ≡ held h s - n h

  finish_slot :
      (m n : Handle → ℕ) (release : State → State) (s s₁ : State) (r : Result (Unit {0}) × State)
      → Releases release m
      → ((h : Handle) → held h s₁ ≡ held h s + m h)
      → Adds n s₁ r
      → Adds
          (λ h. m h + n h)
          s
          (elim r.0 as (λ x. Result (Unit {0}) × State) [
            | throw e ↦ (throw e, release r.1)
            | ok x ↦ (ok tt, r.1)
          ])
  finish_slot m n release s s₁ (ok x, s₂) back made added = λ h. omega (arith, made h, added h)
  finish_slot m n release s s₁ (throw e, s₂) back made added =
      λ h. omega (arith, made h, added h, back s₂ h)

  pub with_slot-Makes :
      (make next : Action api) (release : State → State) (m n : Handle → ℕ)
      → Makes make m
      → Releases release m
      → Makes next n
      → Makes (with_slot api make release next) (λ h. m h + n h)
  unfolding with_slot
  with_slot-Makes make next release m n made back added s = go (make s) (made s)
    where
      go :
          (r : Result (Unit {0}) × State)
          → Adds m s r
          → Adds
              (λ h. m h + n h)
              s
              (elim r.0 as (λ x. Result (Unit {0}) × State) [
                | throw e ↦ (throw e, r.1)
                | ok x ↦ (elim (next r.1).0 as (λ x. Result (Unit {0}) × State) [
                  | throw e ↦ (throw e, release (next r.1).1)
                  | ok x ↦ (ok tt, (next r.1).1)
                ])
              ])
      go (ok x, s₁) added_m = finish_slot m n release s s₁ (next s₁) back added_m (added s₁)
      go (throw e, s₁) kept = kept

  pub checked-Makes :
      (what : String) (call : State → ℤ × State) (n : Handle → ℕ)
      → ((s : State) (h : Handle)
          → held h (call s).1 ≡ held h s + (if is_neg (call s).0 then 0 else n h))
      → Makes (λ s. checked api what (call s)) n
  unfolding checked
  checked-Makes what call n law s = elim (Bool-cases (is_neg (call s).0)) [
    | inl e ↦ rw (checked, e) (λ h. omega (arith, law s h, ap (λ b. if b then 0 else n h) e))
    | inr e ↦ rw (checked, e) (λ h. omega (arith, law s h, ap (λ b. if b then 0 else n h) e))
  ]

  pub and_then-Makes :
      (first next : Action api)
      → Makes first (λ h. 0)
      → Makes next (λ h. 0)
      → Makes (and_then api first next) (λ h. 0)
  unfolding and_then
  and_then-Makes first next p q s = go (first s) (p s)
    where
      go :
          (r : Result (Unit {0}) × State)
          → Adds (λ h. 0) s r
          → Adds
              (λ h. 0)
              s
              (elim r.0 as (λ x. Result (Unit {0}) × State) [
                | throw e ↦ (throw e, r.1)
                | ok x ↦ next r.1
              ])
      go (ok x, s₁) kept = behind (next s₁) (q s₁)
        where
          behind : (r : Result (Unit {0}) × State) → Adds (λ h. 0) s₁ r → Adds (λ h. 0) s r
          behind (ok x, s₂) after = λ h. omega (arith, kept h, after h)
          behind (throw e, s₂) after = λ h. omega (arith, kept h, after h)
      go (throw e, s₁) kept = kept
