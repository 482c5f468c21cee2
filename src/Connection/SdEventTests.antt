-- ===== src/Connection/SdEventTests.antt =====
-- Attaching to event loops on a small libsystemd: it counts the references, and its calls succeed a
-- given number of times and fail then.
use sdbus_cpp.Prelude.{
  ℕ, zero, suc, ◌+◌, ◌-◌, ℤ, pos, negsuc, is_neg, Bool, true, false, List, [], ◌∷◌, ok, ◌≡◌, refl,
  arith, if◌then◌else◌,
}
use sdbus_cpp.Connection.SdEvent.{
  EventSource, SdEventApi, AttachOperation, attaches, detaches, attach_and_detach,
  attach_sd_event_loop,
}
use sdbus_cpp.Connection.Slots.{Handle, event_loop, source_for, one, SdEventLaws}
use sdbus_cpp.Connection.Attach.{slots_of, attach_and_detach_lem, has_returned, attach_null_lem}

abbrev Counted : Type 0
Counted = (Handle → ℕ) × ℕ

abbrev gained : Handle → Counted → Counted
gained h (held, n) = (λ h'. held h' + one h h', n)

abbrev lost : Handle → Counted → Counted
lost h (held, n) = (λ h'. held h' - one h h', n)

abbrev take : Bool → Counted → Bool × Counted
take given (held, zero) = (false, (held, zero))
take given (held, suc n) = (true, gained event_loop (held, n))

abbrev add : Bool → EventSource → Counted → ℤ × Counted
add false source s = (negsuc 21, s)
add true source (held, zero) = (negsuc 11, (held, zero))
add true source (held, suc n) = (pos 0, gained (source_for source) (held, n))

abbrev small : SdEventApi
small = record {
  State = Counted;
  take_event = take;
  add_source = add;
  set_property = λ source p s. (pos 0, s);
  release_event = lost event_loop;
  release_source = λ source. lost (source_for source);
}

take-held :
    (given : Bool) (h : Handle) (s : Counted)
    → (take given s).1.0 h ≡ s.0 h + (if (take given s).0 then one event_loop h else 0)
take-held given h (held, zero) = omega arith
take-held given h (held, suc n) = refl

add-held :
    (given : Bool) (source : EventSource) (h : Handle) (s : Counted)
    → (add given source s).1.0 h
      ≡ s.0 h + (if is_neg (add given source s).0 then 0 else one (source_for source) h)
add-held false source h s = omega arith
add-held true source h (held, zero) = omega arith
add-held true source h (held, suc n) = refl

abbrev small_laws : SdEventLaws small
small_laws = record {
  held = λ h s. s.0 h;
  take_event_lem = take-held;
  add_source_lem = add-held;
  set_property_lem = λ source p h s. refl;
  release_event_lem = λ h s. refl;
  release_source_lem = λ source h s. refl;
}

-- Others hold one reference to each.
abbrev at_first : ℕ → Counted
at_first n = (λ h. 1, n)

abbrev twice : List AttachOperation
twice = attaches (ok tt) true ∷ detaches ∷ attaches (ok tt) true ∷ attaches (ok tt) true ∷ []

attached_at_last : (attach_and_detach small twice false (at_first 10)).0 ≡ true
unfolding attach_and_detach
attached_at_last = refl

attach_and_detach_lem_example :
    (attach_and_detach small twice false (at_first 10)).1.0 event_loop
    ≡ 1 + slots_of small small_laws (attach_and_detach small twice false (at_first 10)).0 event_loop
attach_and_detach_lem_example =
    attach_and_detach_lem small small_laws twice (at_first 10) event_loop

attach_null_lem_example :
    (has_returned (attach_sd_event_loop small (ok tt) false true (at_first 9)).1 ≡ false)
    × ((attach_sd_event_loop small (ok tt) false true (at_first 9)).0 ≡ true)
attach_null_lem_example =
    attach_null_lem small small_laws (ok tt) true (at_first 9) (λ source s. refl)
