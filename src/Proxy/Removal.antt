-- ===== src/Proxy/Removal.antt =====
-- The end of a callback, cancellation and release keep every call valid.
use sdbus_cpp.Prelude.{ℕ, suc, ◌≤◌, ◌≡◌, ◌==◌, none, some, ◌⊎◌, inl, inr, refl, arith, Bool-cases}
use sdbus_cpp.Proxy.Counts.{bit, count, remove, same, same-cases, count-remove}
use sdbus_cpp.Proxy.Calls.{Calls, erase}
use sdbus_cpp.Proxy.Events.{State, owners, finish_callback, cancel_call, release_call}
use sdbus_cpp.Proxy.Owners.{at_work, IsSound, drop-IsSound, drop-IsOwned}
use sdbus_cpp.Proxy.Invariant.{IsValid}

same_one : (j i : ℕ) → same j i ≡ 1 → j ≡ i
unfolding same
same_one j i h = ground arith

finished-erase :
    (i k : ℕ) (c : Calls)
    → (same k i ≡ 1) × (bit ((erase k c).finished i) ≡ 1)
      ⊎ (same k i ≡ 0) × (bit ((erase k c).finished i) ≡ bit (c.finished i))
unfolding erase same
finished-erase i k c = ground arith

pub finish-IsValid :
    (i k : ℕ) (s : State) → s.running ≡ some k → IsValid i s → IsValid i (finish_callback k s)
unfolding finish_callback erase owners count at_work
finish-IsValid i k s busy (h, own) =
    let s₁ = record s { calls = erase k s.calls; running = none } in
    let less = count-remove i k s.calls.slots in
    let worked : at_work i s.running ≡ same k i = rw busy refl in
    let h₁ : IsSound i s₁ = elim (finished-erase i k s.calls) [
      | inl (one, f) ↦ record {
        once = omega (arith, h.once, less);
        settled = omega (arith, h.once, less, one, f);
        single = h.single;
        started = omega arith;
        early = omega (arith, h.early, h.started, h.single, h.once, worked, one, f);
        kept = omega arith;
        fresh = λ p. absurd (omega (arith, h.fresh p, h.started, worked, one));
      }
      | inr (apart, f) ↦ record {
        once = omega (arith, h.once, less);
        settled = omega (arith, h.settled, less, apart, f);
        single = h.single;
        started = omega arith;
        early = omega (arith, h.early, f);
        kept = omega arith;
        fresh = λ p. omega (arith, h.fresh p, less, f);
      }
    ] in
    (
      drop-IsSound i k s₁ h₁,
      drop-IsOwned i k s₁ h₁ (λ apart. omega (arith, own, less, worked, apart)),
    )

pub cancel-IsValid :
    (i k : ℕ) (s : State)
    → suc k ≤ s.next
    → count k s.pushing ≡ 0
    → IsValid i s
    → IsValid i (cancel_call k s)
unfolding cancel_call erase owners count
cancel-IsValid i k s old returned (h, own) = elim (Bool-cases (owners k s == 0)) [
  | inl e ↦ rw (cancel_call, e) (h, own)
  | inr e ↦
      let less = count-remove i k s.calls.slots in
      rw (cancel_call, e)
        (elim (finished-erase i k s.calls) [
          | inl (one, f) ↦
              let at : k ≡ i = same_one k i one in
              let late : suc i ≤ s.next = rw (← at) old in
              let out : count i s.pushing ≡ 0 = rw (← at) returned in
              (
                record {
                  once = omega (arith, h.once, less);
                  settled = omega (arith, h.once, less, one, f);
                  single = h.single;
                  started = h.started;
                  early = omega (arith, h.single, h.started, out, f);
                  kept = omega (arith, h.kept, less, one);
                  fresh = λ p. absurd (omega (arith, late));
                },
                omega (arith, own, less, one),
              )
          | inr (apart, f) ↦ (
            record {
              once = omega (arith, h.once, less);
              settled = omega (arith, h.settled, less, f);
              single = h.single;
              started = h.started;
              early = omega (arith, h.early, f);
              kept = omega (arith, h.kept, less, apart);
              fresh = λ p. omega (arith, h.fresh p, less, apart, f);
            },
            omega (arith, own, less, apart),
          )
        ])
]

pub release-IsValid :
    (i k : ℕ) (s : State) → at_work k s.running ≡ 0 → IsValid i s → IsValid i (release_call k s)
unfolding release_call owners count
release-IsValid i k s idle (h, own) =
    let s₁ = record s { dying = remove k s.dying } in
    let less = count-remove i k s.dying in
    let h₁ : IsSound i s₁ = record {
      once = h.once;
      settled = h.settled;
      single = h.single;
      started = h.started;
      early = h.early;
      kept = elim (same-cases k i) [
        | inl (at, one) ↦
            let idle_too : at_work i s.running ≡ 0 = rw (← at) idle in omega (arith, idle_too)
        | inr (_, apart) ↦ omega (arith, h.kept, less, apart)
      ];
      fresh = λ p. omega (arith, h.fresh p, less);
    } in
    (drop-IsSound i k s₁ h₁, drop-IsOwned i k s₁ h₁ (λ apart. omega (arith, own, less, apart)))
