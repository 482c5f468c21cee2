-- ===== src/Proxy/Safety.antt =====
-- What holds after any sequence of events.
use sdbus_cpp.Prelude.{
  some-cancel, ℕ, suc, ◌≤◌, true, false, List, [], ◌∷◌, ◌≡◌, ltb, none, some, inl, inr, refl, subst,
  arith, Bool-cases, Option-cases,
}
use sdbus_cpp.Proxy.Counts.{bit, count, same}
use sdbus_cpp.Proxy.Events.{
  Event, send, push, begin, finish, cancel, unregister, release, State, initial, owners,
  is_possible, happen, run,
}
use sdbus_cpp.Proxy.Owners.{at_work}
use sdbus_cpp.Proxy.Invariant.{
  IsValid, initial-IsValid, send-IsValid, push-IsValid, begin-IsValid, unregister-IsValid,
}
use sdbus_cpp.Proxy.Removal.{finish-IsValid, cancel-IsValid, release-IsValid}

released_idle : (k : ℕ) (s : State) → is_possible (release k) s ≡ true → at_work k s.running ≡ 0
unfolding is_possible at_work same
released_idle k s h = elim (Option-cases s.running) [
  | inl e ↦ rw e refl
  | inr (j, e) ↦ rw e (let g = rw e at h in ground arith)
]

pub begin_idle :
    (k : ℕ) (s : State)
    → is_possible (begin k) s ≡ true
    → (s.running ≡ none) × (ltb 0 (count k s.registered) ≡ true)
unfolding is_possible
begin_idle k s h = elim (Option-cases s.running) [
  | inl e ↦ (e, rw e at h)
  | inr (j, e) ↦ absurd (let g : false ≡ true = rw e at h in cc)
]

pub push_held : (k : ℕ) (s : State) → is_possible (push k) s ≡ true → 1 ≤ count k s.pushing
unfolding is_possible
push_held k s p = ground arith

pub cancel_known :
    (k : ℕ) (s : State)
    → is_possible (cancel k) s ≡ true
    → (suc k ≤ s.next) × (count k s.pushing ≡ 0)
unfolding is_possible
cancel_known k s p = ground arith

pub happen-IsValid :
    (e : Event) (i : ℕ) (s : State) → is_possible e s ≡ true → IsValid i s → IsValid i (happen e s)
unfolding happen
happen-IsValid send i s p v = send-IsValid i s v
happen-IsValid (push k) i s p v = push-IsValid i k s (push_held k s p) v
happen-IsValid (begin k) i s p v =
    let (idle, has) = begin_idle k s p in begin-IsValid i k s idle has v
happen-IsValid finish i s p v = elim (Option-cases s.running) [
  | inl e ↦ rw (happen, e) v
  | inr (k, e) ↦ rw (happen, e) (finish-IsValid i k s e v)
]
happen-IsValid (cancel k) i s p v =
    let (old, returned) = cancel_known k s p in cancel-IsValid i k s old returned v
happen-IsValid unregister i s p v = unregister-IsValid i s v
happen-IsValid (release k) i s p v = release-IsValid i k s (released_idle k s p) v

pub run-IsValid :
    (es : List Event) (i : ℕ) (s t : State) → run es s ≡ some t → IsValid i s → IsValid i t
unfolding run
run-IsValid [] i s t h v = subst (IsValid i) (some-cancel h) v
run-IsValid (e ∷ es) i s t h v = elim (Bool-cases (is_possible e s)) [
  | inl p ↦ run-IsValid es i (happen e s) t (rw (p, run) at h) (happen-IsValid e i s p v)
  | inr p ↦ absurd (let g : none ≡ some t = rw (p, run) at h in cc)
]

-- The callback of a call runs only while the call's record is owned: as long as no callback cancels
-- its own call or unregisters its own proxy, the handler of src/Proxy.cpp does not use a destroyed
-- AsyncCallInfo, in whatever order the other events happen.
pub running_owned :
    (es : List Event) (s : State) (i : ℕ)
    → run es initial ≡ some s
    → s.running ≡ some i
    → 1 ≤ owners i s
unfolding at_work same
running_owned es s i h busy =
    let (sound, _) = run-IsValid es i initial s h (initial-IsValid i) in
    let working : at_work i s.running ≡ 1 = rw busy (ground arith) in
    omega (arith, sound.kept, working)

-- A call that finished, even before its thread put it into the container, is not in the container
-- then, and so is not kept for good.
pub finished_out :
    (es : List Event) (s : State) (i : ℕ)
    → run es initial ≡ some s
    → s.calls.finished i ≡ true
    → count i s.calls.slots ≡ 0
finished_out es s i h done =
    let (sound, _) = run-IsValid es i initial s h (initial-IsValid i) in
    let one : bit (s.calls.finished i) ≡ 1 = rw done refl in omega (arith, sound.settled, one)
