-- ===== src/Proxy/Heard.antt =====
-- No callback is lost: what happens to other calls does not keep a call from its answer.
use sdbus_cpp.Prelude.{
  both_true, some-cancel, ℕ, suc, ◌+◌, ◌≤◌, Bool, true, false, ◌&&◌, not, List, [], ◌∷◌, ◌≡◌, ◌==◌,
  none, some, ◌⊎◌, inl, inr, refl, subst, arith, Bool-cases, Option-cases, dec_lt,
}
use sdbus_cpp.Proxy.Counts.{bit, count, same, same-cases, count-append, count-remove}
use sdbus_cpp.Proxy.Calls.{push_back, erase, clear}
use sdbus_cpp.Proxy.Events.{
  Event, send, push, begin, finish, cancel, unregister, release, State, initial, owners, drop,
  send_call, push_call, begin_callback, finish_callback, cancel_call, unregister_calls,
  release_call, is_possible, happen, run,
}
use sdbus_cpp.Proxy.Owners.{at_work, IsSound}
use sdbus_cpp.Proxy.Invariant.{IsValid, initial-IsValid}
use sdbus_cpp.Proxy.Safety.{happen-IsValid, push_held}

-- The event does not take the call away from the container: it is no cancellation of it, no release
-- after one, and not the end of the proxy.
unfoldable pub spares : ℕ → Event → Bool
spares i (cancel k) = not (k == i)
spares i (release k) = not (k == i)
spares i unregister = false
spares i _ = true

abbrev pub all_spare : ℕ → List Event → Bool
all_spare i [] = true
all_spare i (e ∷ es) = spares i e && all_spare i es

-- The call was not sent yet, or its callback is registered or was invoked.
abbrev pub IsHeard : ℕ → State → Type 0
IsHeard i s = suc i ≤ s.next → 1 ≤ count i s.registered + count i s.invoked

drop-IsHeard :
    (i k : ℕ) (s : State)
    → IsHeard i s
    → (1 ≤ owners i s) ⊎ ((1 ≤ count i s.invoked) ⊎ (same k i ≡ 0))
    → IsHeard i (drop k s)
unfolding drop owners
drop-IsHeard i k s h why = elim (Bool-cases (owners k s == 0)) [
  | inr e ↦ rw (drop, e) h
  | inl e ↦
      rw (drop, e)
        (λ old. elim why [
          | inr (inr apart) ↦ omega (arith, h old, apart, count-remove i k s.registered)
          | inr (inl was) ↦ omega (arith, was)
          | inl owned ↦ elim (same-cases k i) [
            | inr (_, apart) ↦ omega (arith, h old, apart, count-remove i k s.registered)
            | inl (at, one) ↦ let known = rw at at e in absurd (ground arith)
          ]
        ])
]

apart_by_test : (i k : ℕ) → not (k == i) ≡ true → same k i ≡ 0
unfolding same
apart_by_test i k h = ground arith

held_old : (i : ℕ) (s : State) → IsSound i s → 1 ≤ count i s.pushing → suc i ≤ s.next
unfolding owners
held_old i s h here = elim (dec_lt i s.next) [
  | yes old ↦ omega arith
  | no new ↦ absurd (omega (arith, h.fresh (omega arith), here))
]

push-IsHeard :
    (i k : ℕ) (s : State)
    → 1 ≤ count k s.pushing
    → IsValid i s
    → IsHeard i s
    → IsHeard i (push_call k s)
unfolding push_call push_back owners count
push-IsHeard i k s held (h, own) heard = elim (Bool-cases (s.calls.finished k)) [
  | inl e ↦
      rw (push_call, push_back, e)
        (drop-IsHeard i k _ heard (elim (same-cases k i) [
          | inr (_, apart) ↦ inr (inr apart)
          | inl (at, one) ↦
              let here : 1 ≤ count i s.pushing = rw (← at) held in
              let done : bit (s.calls.finished i) ≡ 1 = rw (← at, e) refl in
              inr (inl (omega (arith, h.early, here, done, heard (held_old i s h here))))
        ]))
  | inr e ↦
      rw (push_call, push_back, e)
        (drop-IsHeard i k _ heard (elim (same-cases k i) [
          | inr (_, apart) ↦ inr (inr apart)
          | inl (at, one) ↦ inl (omega (arith, one, count-append i s.calls.slots (k ∷ [])))
        ]))
]

happen-IsHeard :
    (e : Event) (i : ℕ) (s : State)
    → is_possible e s ≡ true
    → spares i e ≡ true
    → IsValid i s
    → IsHeard i s
    → IsHeard i (happen e s)
unfolding happen owners count send_call push_call push_back begin_callback finish_callback erase
    spares unregister_calls clear cancel_call release_call at_work
happen-IsHeard send i s p spared (h, own) heard = λ old. elim (same-cases s.next i) [
  | inl (e, one) ↦ omega (arith, one)
  | inr (apart, none_here) ↦ omega (arith, heard (omega arith), none_here)
]
happen-IsHeard (push k) i s p spared v heard = push-IsHeard i k s (push_held k s p) v heard
happen-IsHeard (begin k) i s p spared (h, own) heard =
    λ old. omega (arith, heard old, count-remove i k s.registered)
happen-IsHeard finish i s p spared (h, own) heard = elim (Option-cases s.running) [
  | inl e ↦ rw (happen, e) heard
  | inr (k, e) ↦
      rw (happen, e)
        (drop-IsHeard i k _ heard (elim (same-cases k i) [
          | inr (_, apart) ↦ inr (inr apart)
          | inl (at, one) ↦
              let working : at_work i s.running ≡ 1 = rw e one in
              inr (inl (omega (arith, h.started, working)))
        ]))
]
happen-IsHeard (cancel k) i s p spared (h, own) heard = elim (Bool-cases (owners k s == 0)) [
  | inl e ↦ rw (happen, cancel_call, e) heard
  | inr e ↦ rw (happen, cancel_call, e) heard
]
happen-IsHeard unregister i s p spared (h, own) heard = heard
happen-IsHeard (release k) i s p spared (h, own) heard =
    drop-IsHeard i k _ heard (inr (inr (apart_by_test i k spared)))

run-IsHeard :
    (es : List Event) (i : ℕ) (s t : State)
    → run es s ≡ some t
    → all_spare i es ≡ true
    → IsValid i s
    → IsHeard i s
    → IsHeard i t
unfolding run
run-IsHeard [] i s t h spared v heard = subst (IsHeard i) (some-cancel h) heard
run-IsHeard (e ∷ es) i s t h spared v heard = elim (Bool-cases (is_possible e s)) [
  | inl p ↦
      let (one, others) = both_true (spares i e) (all_spare i es) spared in
      run-IsHeard es i (happen e s) t (rw (p, run) at h) others (happen-IsValid e i s p v)
        (happen-IsHeard e i s p one v heard)
  | inr p ↦ absurd (let g : none ≡ some t = rw (p, run) at h in cc)
]

-- No callback is lost: a call that was sent, and that no client cancelled, released or unregistered,
-- still has its slot with libsystemd or its callback was invoked, whatever happened to other calls
-- and in whichever order the answer and the return of callMethodAsync came.
pub sent_heard :
    (es : List Event) (s : State) (i : ℕ)
    → run es initial ≡ some s
    → all_spare i es ≡ true
    → suc i ≤ s.next
    → 1 ≤ count i s.registered + count i s.invoked
sent_heard es s i h spared old =
    run-IsHeard es i initial s h spared (initial-IsValid i) (λ early. absurd (omega arith)) old
