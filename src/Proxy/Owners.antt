-- ===== src/Proxy/Owners.antt =====
-- What holds of one call in every state: how its owners, its registration with libsystemd, its
-- callback and its member `finished` go together.
use sdbus_cpp.Prelude.{ℕ, ◌+◌, ◌≤◌, ◌≡◌, ◌==◌, Option, none, some, inl, inr, arith, Bool-cases}
use sdbus_cpp.Proxy.Counts.{bit, count, same, same-cases, count-remove}
use sdbus_cpp.Proxy.Events.{State, owners, drop}

-- One if the callback of the call is running.
unfoldable pub at_work : ℕ → Option ℕ → ℕ
at_work i none = 0
at_work i (some j) = same j i

module _ (i : ℕ) (s : State) where
  -- A call is at most once in the container or on its way there, and not in it when it finished;
  -- its callback runs at most once, after which it is not registered; while it runs, it is owned.
  -- A call that finished before it got into the container is neither registered nor running.
  pub record IsSound : Type 0 where
    pub once : count i s.calls.slots + count i s.pushing ≤ 1
    pub settled : count i s.calls.slots + bit (s.calls.finished i) ≤ 1
    pub single : count i s.invoked + count i s.registered ≤ 1
    pub started : at_work i s.running ≤ count i s.invoked
    pub early :
        bit (s.calls.finished i) + count i s.pushing + count i s.registered + at_work i s.running
        ≤ 2
    pub kept : at_work i s.running ≤ owners i s
    pub fresh :
        s.next ≤ i
        → owners i s + count i s.registered + count i s.invoked + bit (s.calls.finished i) ≡ 0

  -- A registered call is owned.
  abbrev pub IsOwned : Type 0
  IsOwned = count i s.registered + at_work i s.running ≤ owners i s

pub drop-IsSound : (i k : ℕ) (s : State) → IsSound i s → IsSound i (drop k s)
unfolding drop owners
drop-IsSound i k s h = elim (Bool-cases (owners k s == 0)) [
  | inr e ↦ rw (drop, e) h
  | inl e ↦
      rw (drop, e)
        (record {
          once = h.once;
          settled = h.settled;
          single = omega (arith, h.single, count-remove i k s.registered);
          started = h.started;
          early = omega (arith, h.early, count-remove i k s.registered);
          kept = h.kept;
          fresh = λ p. omega (arith, h.fresh p, count-remove i k s.registered);
        })
]

pub drop-IsOwned :
    (i k : ℕ) (s : State) → IsSound i s → (same k i ≡ 0 → IsOwned i s) → IsOwned i (drop k s)
unfolding drop owners
drop-IsOwned i k s h own = elim (Bool-cases (owners k s == 0)) [
  | inr e ↦
      rw (drop, e)
        (elim (same-cases k i) [
          | inr (_, apart) ↦ own apart
          | inl (at, one) ↦
              let some_owner : 1 ≤ owners i s = rw (← at) (ground arith) in
              omega (arith, h.single, h.started, some_owner)
        ])
  | inl e ↦
      rw (drop, e)
        (elim (same-cases k i) [
          | inr (_, apart) ↦ omega (arith, own apart, count-remove i k s.registered)
          | inl (at, one) ↦
              let no_owner : owners i s ≡ 0 = rw (← at) (ground arith) in
              omega (arith, h.single, h.kept, no_owner, count-remove i k s.registered)
        ])
]
