-- ===== src/SdBus/Exclusive.antt =====
-- Only one thread at a time is in a function that locks the mutex.
use sdbus_cpp.Prelude.{
  ℕ, suc, ◌+◌, ◌-◌, ◌==◌, true, some, some-cancel, List, [], ◌∷◌, ◌≡◌, refl, ap, sym, ◌∙◌, arith,
  if◌then◌else◌, Bool-cases, Option-cases, subst, inl, inr, ◌⊎◌,
}
use sdbus_cpp.SdBus.{
  SdBusFunction, locks, Mutex, lock, unlock, Callers, with_calls, CallStep, begins, returns,
  begin_call, return_call, call_step, call_steps,
}

-- How many of the calls hold the mutex.
unfoldable pub locked : List SdBusFunction → ℕ
locked [] = 0
locked (f ∷ fs) = (if locks f then 1 else 0) + locked fs

-- The mutex is held as often as its owner's calls hold it, and by no other thread.
abbrev pub IsExclusive : Callers → Type 0
IsExclusive s =
    (thread : ℕ) → locked (s.calls thread) ≡ (if thread == s.mutex.owner then s.mutex.depth else 0)

locked-with_calls :
    (thread : ℕ) (fs : List SdBusFunction) (calls : ℕ → List SdBusFunction) (t : ℕ)
    → locked (with_calls thread fs calls t) ≡ (if t == thread then locked fs else locked (calls t))
unfolding with_calls
locked-with_calls thread fs calls t = elim (Bool-cases (t == thread)) [
  | inl e ↦ rw (with_calls, e) refl
  | inr e ↦ rw (with_calls, e) refl
]

lock-eq-some :
    (thread : ℕ) (m m' : Mutex)
    → lock thread m ≡ some m'
    → (m'.owner ≡ thread) × (m'.depth ≡ suc m.depth) × ((m.depth ≡ 0) ⊎ (m.owner ≡ thread))
unfolding lock
lock-eq-some thread m m' h = elim (Bool-cases (m.depth == 0)) [
  | inl e ↦
      let free : m.depth ≡ 0 = ground arith in
      let same : record { owner = thread; depth = 1 } ≡ m' = some-cancel (rw (e, lock) at h) in
      (
        ap (λ (z : Mutex). z.owner) (sym same),
        ap (λ (z : Mutex). z.depth) (sym same) ∙ ap suc (sym free),
        inl free,
      )
  | inr e ↦ elim (Bool-cases (m.owner == thread)) [
    | inl own ↦
        let same : record m { depth = suc m.depth } ≡ m' = some-cancel (rw (e, own, lock) at h) in
        let mine : m.owner ≡ thread = ground arith in
        (
          ap (λ (z : Mutex). z.owner) (sym same) ∙ mine,
          ap (λ (z : Mutex). z.depth) (sym same),
          inr mine,
        )
    | inr other ↦ absurd (let no = rw (e, other, lock) at h in cc)
  ]
]

began :
    (t thread owner depth here there : ℕ)
    → there ≡ (if t == owner then depth else 0)
    → here ≡ (if thread == owner then depth else 0)
    → (depth ≡ 0) ⊎ (owner ≡ thread)
    → (if t == thread then 1 + here else there) ≡ (if t == thread then suc depth else 0)
began t thread owner depth here there p q (inl r) = ground arith
began t thread owner depth here there p q (inr r) = ground arith

ended :
    (t thread owner depth here there : ℕ)
    → there ≡ (if t == owner then depth else 0)
    → 1 + here ≡ (if thread == owner then depth else 0)
    → (if t == thread then here else there) ≡ (if t == owner then depth - 1 else 0)
ended t thread owner depth here there p q = ground arith

unchanged :
    (t thread owner depth here there : ℕ)
    → there ≡ (if t == owner then depth else 0)
    → here ≡ (if thread == owner then depth else 0)
    → (if t == thread then here else there) ≡ (if t == owner then depth else 0)
unchanged t thread owner depth here there p q = ground arith

IsExclusive-lock :
    (thread : ℕ) (f : SdBusFunction) (s : Callers) (m : Mutex)
    → locks f ≡ true
    → lock thread s.mutex ≡ some m
    → IsExclusive s
    → IsExclusive (record { mutex = m; calls = with_calls thread (f ∷ s.calls thread) s.calls })
unfolding locked
IsExclusive-lock thread f s m e l v = λ t.
    let (own, deep, free) = lock-eq-some thread s.mutex m l in
    rw (locked-with_calls, locked, e, own, deep)
      (began t thread s.mutex.owner s.mutex.depth (locked (s.calls thread)) (locked (s.calls t))
        (v t) (v thread) free)

IsExclusive-unlocked :
    (thread : ℕ) (fs : List SdBusFunction) (s : Callers)
    → locked fs ≡ locked (s.calls thread)
    → IsExclusive s
    → IsExclusive (record { mutex = s.mutex; calls = with_calls thread fs s.calls })
IsExclusive-unlocked thread fs s same v = λ t.
    rw (locked-with_calls, same)
      (unchanged t thread s.mutex.owner s.mutex.depth (locked (s.calls thread)) (locked (s.calls t))
        (v t) (v thread))

begin_call-IsExclusive :
    (thread : ℕ) (f : SdBusFunction) (s s' : Callers)
    → begin_call thread f s ≡ some s'
    → IsExclusive s
    → IsExclusive s'
unfolding begin_call locked
begin_call-IsExclusive thread f s s' h v = elim (Bool-cases (locks f)) [
  | inl e ↦ elim (Option-cases (lock thread s.mutex)) [
    | inl none_there ↦ absurd (let no = rw (e, none_there, begin_call) at h in cc)
    | inr (m, l) ↦
        subst IsExclusive (some-cancel (rw (e, l, begin_call) at h))
          (IsExclusive-lock thread f s m e l v)
  ]
  | inr e ↦
      subst IsExclusive (some-cancel (rw (e, begin_call) at h))
        (IsExclusive-unlocked thread (f ∷ s.calls thread) s (rw (locked, e) (omega arith)) v)
]

return_call-IsExclusive :
    (thread : ℕ) (fs : List SdBusFunction) (s s' : Callers)
    → s.calls thread ≡ fs
    → return_call thread fs s ≡ some s'
    → IsExclusive s
    → IsExclusive s'
unfolding return_call unlock locked
return_call-IsExclusive thread [] s s' e h v = cc
return_call-IsExclusive thread (f ∷ fs) s s' e h v = elim (Bool-cases (locks f)) [
  | inl l ↦ subst IsExclusive (some-cancel (rw (l, return_call) at h)) (λ t. rw locked-with_calls (
      ended t thread s.mutex.owner s.mutex.depth (locked fs) (locked (s.calls t)) (v t)
        (rw (ap locked e, locked, l) at (v thread))))
  | inr l ↦
      subst IsExclusive (some-cancel (rw (l, return_call) at h))
        (IsExclusive-unlocked thread fs s (rw (e, locked, l) (omega arith)) v)
]

pub call_steps-IsExclusive :
    (steps : List CallStep) (s s' : Callers)
    → call_steps steps s ≡ some s'
    → IsExclusive s
    → IsExclusive s'
unfolding call_steps call_step
call_steps-IsExclusive [] s s' h v = subst IsExclusive (some-cancel h) v
call_steps-IsExclusive (begins thread f ∷ steps) s s' h v =
    elim (Option-cases (begin_call thread f s)) [
      | inl e ↦ absurd (let no = rw (e, call_steps, call_step) at h in cc)
      | inr (s₁, e) ↦
          call_steps-IsExclusive steps s₁ s' (rw (e, call_steps, call_step) at h)
            (begin_call-IsExclusive thread f s s₁ e v)
    ]
call_steps-IsExclusive (returns thread ∷ steps) s s' h v =
    elim (Option-cases (return_call thread (s.calls thread) s)) [
      | inl e ↦ absurd (let no = rw (e, call_steps, call_step) at h in cc)
      | inr (s₁, e) ↦
          call_steps-IsExclusive steps s₁ s' (rw (e, call_steps, call_step) at h)
            (return_call-IsExclusive thread (s.calls thread) s s₁ refl e v)
    ]
