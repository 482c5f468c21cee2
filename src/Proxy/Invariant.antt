-- ===== src/Proxy/Invariant.antt =====
-- Sending, putting into the container, invoking the callback and unregistering keep every call valid.
use sdbus_cpp.Prelude.{
  ℕ, ◌≤◌, true, [], ◌∷◌, ◌++◌, ◌≡◌, ltb, none, inl, inr, refl, arith, Bool-cases,
}
use sdbus_cpp.Proxy.Counts.{bit, count, remove, same-cases, count-append, count-remove}
use sdbus_cpp.Proxy.Calls.{push_back, clear}
use sdbus_cpp.Proxy.Events.{
  State, initial, owners, send_call, push_call, begin_callback, unregister_calls,
}
use sdbus_cpp.Proxy.Owners.{at_work, IsSound, IsOwned, drop-IsSound, drop-IsOwned}

-- A call is sound, and owned while it is registered.
abbrev pub IsValid : ℕ → State → Type 0
IsValid i s = IsSound i s × IsOwned i s

pub initial-IsValid : (i : ℕ) → IsValid i initial
unfolding at_work count owners
initial-IsValid i = (ground arith, omega arith)

pub send-IsValid : (i : ℕ) (s : State) → IsValid i s → IsValid i (send_call s)
unfolding send_call owners count
send-IsValid i s (h, own) = elim (same-cases s.next i) [
  | inl (e, one) ↦
      let new = h.fresh (omega (arith, e)) in
      (
        record {
          once = omega (arith, new, one);
          settled = h.settled;
          single = omega (arith, new, one);
          started = h.started;
          early = omega (arith, new, one, h.started);
          kept = omega (arith, h.kept);
          fresh = λ p. absurd (omega (arith, e));
        },
        omega (arith, own, one),
      )
  | inr (apart, none_here) ↦ (
    record {
      once = omega (arith, h.once, none_here);
      settled = h.settled;
      single = omega (arith, h.single, none_here);
      started = h.started;
      early = omega (arith, h.early, none_here);
      kept = omega (arith, h.kept, none_here);
      fresh = λ p. omega (arith, h.fresh (omega arith), none_here);
    },
    omega (arith, own, none_here),
  )
]

pub begin-IsValid :
    (i k : ℕ) (s : State)
    → s.running ≡ none
    → ltb 0 (count k s.registered) ≡ true
    → IsValid i s
    → IsValid i (begin_callback k s)
unfolding begin_callback owners count at_work
begin-IsValid i k s idle possible (h, own) =
    let some_slot : 1 ≤ count k s.registered = ground arith in
    elim (same-cases k i) [
      | inl (e, one) ↦
          let here : 1 ≤ count i s.registered = rw (← e) some_slot in
          let less = count-remove i k s.registered in
          (
            record {
              once = h.once;
              settled = h.settled;
              single = omega (arith, h.single, less, one, here);
              started = omega arith;
              early = omega (arith, h.early, less, one, here);
              kept = omega (arith, own, one, here);
              fresh = λ p. absurd (omega (arith, h.fresh p, here));
            },
            omega (arith, own, less, one, here),
          )
      | inr (apart, none_here) ↦
          let less = count-remove i k s.registered in
          (
            record {
              once = h.once;
              settled = h.settled;
              single = omega (arith, h.single, less, none_here);
              started = omega (arith, none_here);
              early = omega (arith, h.early, less, none_here);
              kept = omega (arith, none_here);
              fresh = λ p. omega (arith, h.fresh p, less, none_here);
            },
            omega (arith, own, less, none_here),
          )
    ]

pub unregister-IsValid : (i : ℕ) (s : State) → IsValid i s → IsValid i (unregister_calls s)
unfolding unregister_calls clear owners count
unregister-IsValid i s (h, own) =
    let all = count-append i s.calls.slots s.dying in
    (
      record {
        once = omega (arith, h.once);
        settled = omega (arith, h.settled);
        single = h.single;
        started = h.started;
        early = h.early;
        kept = omega (arith, h.kept, all);
        fresh = λ p. omega (arith, h.fresh p, all);
      },
      omega (arith, own, all),
    )

pub push-IsValid :
    (i k : ℕ) (s : State) → 1 ≤ count k s.pushing → IsValid i s → IsValid i (push_call k s)
unfolding push_call push_back owners count
push-IsValid i k s held (h, own) = elim (Bool-cases (s.calls.finished k)) [
  | inl e ↦
      let s₁ = record s { pushing = remove k s.pushing } in
      let less = count-remove i k s.pushing in
      let h₁ : IsSound i s₁ = record {
        once = omega (arith, h.once, less);
        settled = h.settled;
        single = h.single;
        started = h.started;
        early = omega (arith, h.early, less);
        kept = elim (same-cases k i) [
          | inl (at, one) ↦
              let here : 1 ≤ count i s.pushing = rw (← at) held in
              let done : bit (s.calls.finished i) ≡ 1 = rw (← at, e) refl in
              omega (arith, h.early, here, done)
          | inr (_, apart) ↦ omega (arith, h.kept, less, apart)
        ];
        fresh = λ p. omega (arith, h.fresh p, less);
      } in
      rw (push_call, push_back, e)
        (drop-IsSound i k s₁ h₁, drop-IsOwned i k s₁ h₁ (λ apart. omega (arith, own, less, apart)))
  | inr e ↦
      let s₁ = record s {
        calls = record (s.calls) { slots = s.calls.slots ++ k ∷ [] };
        pushing = remove k s.pushing;
      } in
      let less = count-remove i k s.pushing in
      let more = count-append i s.calls.slots (k ∷ []) in
      let h₁ : IsSound i s₁ = elim (same-cases k i) [
        | inl (at, one) ↦
            let here : 1 ≤ count i s.pushing = rw (← at) held in
            let done : bit (s.calls.finished i) ≡ 0 = rw (← at, e) refl in
            record {
              once = omega (arith, h.once, less, more, one, here);
              settled = omega (arith, h.once, more, one, here, done);
              single = h.single;
              started = h.started;
              early = omega (arith, h.early, less);
              kept = omega (arith, h.kept, less, more, one, here);
              fresh = λ p. absurd (omega (arith, h.fresh p, here));
            }
        | inr (_, apart) ↦ record {
          once = omega (arith, h.once, less, more, apart);
          settled = omega (arith, h.settled, more, apart);
          single = h.single;
          started = h.started;
          early = omega (arith, h.early, less);
          kept = omega (arith, h.kept, less, more, apart);
          fresh = λ p. omega (arith, h.fresh p, less, more, apart);
        }
      ] in
      rw (push_call, push_back, e)
        (
          drop-IsSound i k s₁ h₁,
          drop-IsOwned i k s₁ h₁ (λ apart. omega (arith, own, less, more, apart)),
        )
]
