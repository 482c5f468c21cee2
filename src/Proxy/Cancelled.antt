-- ===== src/Proxy/Cancelled.antt =====
-- A call that is gone stays gone.
use sdbus_cpp.Prelude.{
  some-cancel, ℕ, suc, ◌≤◌, true, false, List, [], ◌∷◌, ◌≡◌, ◌==◌, none, some, inl, inr, refl, ◌∙◌,
  subst, arith, Bool-cases, Option-cases,
}
use sdbus_cpp.Proxy.Counts.{count, same, same-cases, count-append, count-remove}
use sdbus_cpp.Proxy.Calls.{push_back, erase, clear}
use sdbus_cpp.Proxy.Events.{
  Event, send, push, begin, finish, cancel, unregister, release, State, initial, owners, drop,
  send_call, push_call, begin_callback, finish_callback, cancel_call, unregister_calls,
  release_call, is_possible, happen, run,
}
use sdbus_cpp.Proxy.Invariant.{IsValid, initial-IsValid}
use sdbus_cpp.Proxy.Safety.{run-IsValid, happen-IsValid, push_held, begin_idle}

-- The call was sent, and its record is destroyed by now.
unfoldable pub IsGone : ℕ → State → Type 0
unfolding owners
IsGone i s = (suc i ≤ s.next) × (owners i s ≡ 0)

-- From one state to another, the call stays gone and its callback is not invoked.
abbrev pub StaysGone : ℕ → State → State → Type 0
StaysGone i s t = IsGone i t × (count i t.invoked ≡ count i s.invoked)

drop-StaysGone : (i k : ℕ) (s t : State) → StaysGone i s t → StaysGone i s (drop k t)
unfolding drop owners IsGone
drop-StaysGone i k s t h = elim (Bool-cases (owners k t == 0)) [
  | inr e ↦ rw (drop, e) h
  | inl e ↦ rw (drop, e) h
]

apart_of : (i k : ℕ) (xs : List ℕ) → count i xs ≡ 0 → 1 ≤ count k xs → same k i ≡ 0
apart_of i k xs none_here some_here = elim (same-cases k i) [
  | inr (_, apart) ↦ apart
  | inl (e, one) ↦
      let here : 1 ≤ count i xs = rw (← e) some_here in absurd (omega (arith, here, none_here))
]

still_owned : (i k : ℕ) (s : State) → owners i s ≡ 0 → (owners k s == 0) ≡ false → same k i ≡ 0
still_owned i k s gone owned = elim (same-cases k i) [
  | inr (_, apart) ↦ apart
  | inl (e, one) ↦ let known = rw e at owned in absurd (ground arith)
]

happen-StaysGone :
    (e : Event) (i : ℕ) (s : State)
    → is_possible e s ≡ true
    → IsValid i s
    → IsGone i s
    → StaysGone i s (happen e s)
unfolding happen IsGone owners count send_call push_call push_back begin_callback finish_callback
    erase unregister_calls clear cancel_call release_call
happen-StaysGone send i s p (h, own) (old, gone) = elim (same-cases s.next i) [
  | inl (e, one) ↦ absurd (omega (arith, e, old))
  | inr (_, apart) ↦ ((omega (arith, old), omega (arith, gone, apart)), refl)
]
happen-StaysGone (push k) i s p (h, own) (old, gone) =
    let apart = apart_of i k s.pushing (omega (arith, gone)) (push_held k s p) in
    elim (Bool-cases (s.calls.finished k)) [
      | inl e ↦
          rw (happen, push_call, push_back, e)
            (drop-StaysGone i k s _ ((old, omega (arith, gone, count-remove i k s.pushing)), refl))
      | inr e ↦
          rw (happen, push_call, push_back, e)
            (drop-StaysGone i k s _ (
              (
                old,
                omega (
                  arith,
                  gone,
                  apart,
                  count-remove i k s.pushing,
                  count-append i s.calls.slots (k ∷ []),
                ),
              ),
              refl,
            ))
    ]
happen-StaysGone (begin k) i s p (h, own) (old, gone) =
    let (idle, has) = begin_idle k s p in
    let some_slot : 1 ≤ count k s.registered = ground arith in
    let apart = apart_of i k s.registered (omega (arith, gone, own)) some_slot in
    ((old, gone), omega (arith, apart))
happen-StaysGone finish i s p (h, own) (old, gone) = elim (Option-cases s.running) [
  | inl e ↦ rw (happen, e) ((old, gone), refl)
  | inr (k, e) ↦
      rw (happen, e)
        (drop-StaysGone i k s _ ((old, omega (arith, gone, count-remove i k s.calls.slots)), refl))
]
happen-StaysGone (cancel k) i s p (h, own) (old, gone) = elim (Bool-cases (owners k s == 0)) [
  | inl e ↦ rw (happen, cancel_call, e) ((old, gone), refl)
  | inr e ↦
      let apart = still_owned i k s gone e in
      rw (happen, cancel_call, e)
        ((old, omega (arith, gone, apart, count-remove i k s.calls.slots)), refl)
]
happen-StaysGone unregister i s p (h, own) (old, gone) =
    ((old, omega (arith, gone, count-append i s.calls.slots s.dying)), refl)
happen-StaysGone (release k) i s p (h, own) (old, gone) =
    drop-StaysGone i k s _ ((old, omega (arith, gone, count-remove i k s.dying)), refl)

run-StaysGone :
    (es : List Event) (i : ℕ) (s t : State)
    → run es s ≡ some t
    → IsValid i s
    → IsGone i s
    → StaysGone i s t
unfolding run
run-StaysGone [] i s t h v gone = subst (StaysGone i s) (some-cancel h) (gone, refl)
run-StaysGone (e ∷ es) i s t h v gone = elim (Bool-cases (is_possible e s)) [
  | inl p ↦
      let first = happen-StaysGone e i s p v gone in
      let rest =
        run-StaysGone es i (happen e s) t (rw (p, run) at h) (happen-IsValid e i s p v) first.0 in
      (rest.0, rest.1 ∙ first.1)
  | inr p ↦ absurd (let g : none ≡ some t = rw (p, run) at h in cc)
]

-- Once a call's record is destroyed, because the client cancelled it or unregistered the proxy and
-- that returned, or because its callback is over, the callback is never invoked any more, and the
-- record stays destroyed, whatever happens next.
pub gone_silent :
    (before after : List Event) (s t : State) (i : ℕ)
    → run before initial ≡ some s
    → run after s ≡ some t
    → IsGone i s
    → StaysGone i s t
gone_silent before after s t i past future gone =
    run-StaysGone after i s t future (run-IsValid before i initial s past (initial-IsValid i)) gone
