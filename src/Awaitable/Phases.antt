-- ===== src/Awaitable/Phases.antt =====
-- The states that the two threads can be in together.
use sdbus_cpp.Prelude.{
  some-cancel, ℕ, suc, ◌+◌, ◌≤◌, Bool, true, false, Option, none, some, List, [], ◌∷◌, Result, ◌≡◌,
  refl, sym, arith, length, Option-cases, inl, inr,
}
use sdbus_cpp.Awaitable.{
  not_ready, waiting, completed, Coroutine, checks, stores_handle, swaps, suspended, resumed,
  stores_result, exchanges, resumes, returned, Thread, coroutine_thread, callback_thread,
  AwaitableData, step, interleave,
}

-- How far the coroutine is before it is suspended, and how far the callback is before it resumes.
pub data Early : Type 0 where
  at_check at_store at_swap : Early

pub data Stage : Type 0 where
  before_result before_exchange exchanged : Stage

pub data Phase : Type 0 where
  ahead : Early → Stage → Phase
  asleep : Stage → Phase
  -- The flag says whether a handle was stored.
  awake : Bool → Phase

abbrev pub place : Early → Coroutine
place at_check = checks
place at_store = stores_handle
place at_swap = swaps

abbrev pub stored : Early → Bool
stored at_check = false
stored at_store = false
stored at_swap = true

module _ {A : Type 0} (r : Result A) where
  abbrev pub result_at : Stage → Option (Result A)
  result_at before_result = none
  result_at before_exchange = some r
  result_at exchanged = some r

  abbrev pub shape : Phase → AwaitableData A
  shape (ahead e before_result) = record {
    result = none;
    status = not_ready;
    has_handle = stored e;
    coroutine = place e;
    callback = stores_result;
    results = [];
  }
  shape (ahead e before_exchange) = record {
    result = some r;
    status = not_ready;
    has_handle = stored e;
    coroutine = place e;
    callback = exchanges;
    results = [];
  }
  shape (ahead e exchanged) = record {
    result = some r;
    status = completed;
    has_handle = stored e;
    coroutine = place e;
    callback = returned;
    results = [];
  }
  shape (asleep before_result) = record {
    result = none;
    status = waiting;
    has_handle = true;
    coroutine = suspended;
    callback = stores_result;
    results = [];
  }
  shape (asleep before_exchange) = record {
    result = some r;
    status = waiting;
    has_handle = true;
    coroutine = suspended;
    callback = exchanges;
    results = [];
  }
  shape (asleep exchanged) = record {
    result = some r;
    status = completed;
    has_handle = true;
    coroutine = suspended;
    callback = resumes;
    results = [];
  }
  shape (awake b) = record {
    result = some r;
    status = completed;
    has_handle = b;
    coroutine = resumed;
    callback = returned;
    results = some r ∷ [];
  }

-- The next phase.
abbrev pub next_phase : Thread → Phase → Option Phase
next_phase coroutine_thread (ahead at_check before_result) = some (ahead at_store before_result)
next_phase coroutine_thread (ahead at_check before_exchange) = some (ahead at_store before_exchange)
next_phase coroutine_thread (ahead at_check exchanged) = some (awake false)
next_phase coroutine_thread (ahead at_store c) = some (ahead at_swap c)
next_phase coroutine_thread (ahead at_swap before_result) = some (asleep before_result)
next_phase coroutine_thread (ahead at_swap before_exchange) = some (asleep before_exchange)
next_phase coroutine_thread (ahead at_swap exchanged) = some (awake true)
next_phase coroutine_thread (asleep c) = none
next_phase coroutine_thread (awake b) = none
next_phase callback_thread (ahead e before_result) = some (ahead e before_exchange)
next_phase callback_thread (ahead e before_exchange) = some (ahead e exchanged)
next_phase callback_thread (ahead e exchanged) = none
next_phase callback_thread (asleep before_result) = some (asleep before_exchange)
next_phase callback_thread (asleep before_exchange) = some (asleep exchanged)
next_phase callback_thread (asleep exchanged) = some (awake true)
next_phase callback_thread (awake b) = none

abbrev pub shape_of : {A : Type 0} → Result A → Option Phase → Option (AwaitableData A)
shape_of r none = none
shape_of r (some p) = some (shape r p)

-- The steps lead from phase to phase.
pub step-shape :
    {A : Type 0} (r : Result A) (t : Thread) (p : Phase)
    → step r t (shape r p) ≡ shape_of r (next_phase t p)
unfolding step
step-shape r coroutine_thread (ahead at_check before_result) = refl
step-shape r coroutine_thread (ahead at_check before_exchange) = refl
step-shape r coroutine_thread (ahead at_check exchanged) = refl
step-shape r coroutine_thread (ahead at_store before_result) = refl
step-shape r coroutine_thread (ahead at_store before_exchange) = refl
step-shape r coroutine_thread (ahead at_store exchanged) = refl
step-shape r coroutine_thread (ahead at_swap before_result) = refl
step-shape r coroutine_thread (ahead at_swap before_exchange) = refl
step-shape r coroutine_thread (ahead at_swap exchanged) = refl
step-shape r coroutine_thread (asleep before_result) = refl
step-shape r coroutine_thread (asleep before_exchange) = refl
step-shape r coroutine_thread (asleep exchanged) = refl
step-shape r coroutine_thread (awake b) = refl
step-shape r callback_thread (ahead e before_result) = refl
step-shape r callback_thread (ahead e before_exchange) = refl
step-shape r callback_thread (ahead e exchanged) = refl
step-shape r callback_thread (asleep before_result) = refl
step-shape r callback_thread (asleep before_exchange) = refl
step-shape r callback_thread (asleep exchanged) = refl
step-shape r callback_thread (awake b) = refl

-- How many steps are left at most.
abbrev pub early_left : Early → ℕ
early_left at_check = 3
early_left at_store = 2
early_left at_swap = 1

abbrev pub stage_left : Stage → ℕ
stage_left before_result = 3
stage_left before_exchange = 2
stage_left exchanged = 1

abbrev pub steps_left : Phase → ℕ
steps_left (ahead e c) = early_left e + stage_left c
steps_left (asleep c) = stage_left c
steps_left (awake b) = 0

pub next_phase_less :
    (t : Thread) (p q : Phase) → next_phase t p ≡ some q → suc (steps_left q) ≤ steps_left p
next_phase_less coroutine_thread (ahead at_check before_result) q h = ground arith
next_phase_less coroutine_thread (ahead at_check before_exchange) q h = ground arith
next_phase_less coroutine_thread (ahead at_check exchanged) q h = ground arith
next_phase_less coroutine_thread (ahead at_store c) q h = ground arith
next_phase_less coroutine_thread (ahead at_swap before_result) q h = ground arith
next_phase_less coroutine_thread (ahead at_swap before_exchange) q h = ground arith
next_phase_less coroutine_thread (ahead at_swap exchanged) q h = ground arith
next_phase_less coroutine_thread (asleep c) q h = absurd cc
next_phase_less coroutine_thread (awake b) q h = absurd cc
next_phase_less callback_thread (ahead e before_result) q h = ground arith
next_phase_less callback_thread (ahead e before_exchange) q h = ground arith
next_phase_less callback_thread (ahead e exchanged) q h = absurd cc
next_phase_less callback_thread (asleep before_result) q h = ground arith
next_phase_less callback_thread (asleep before_exchange) q h = ground arith
next_phase_less callback_thread (asleep exchanged) q h = ground arith
next_phase_less callback_thread (awake b) q h = absurd cc

-- A run leads from phase to phase, in at most as many steps as are left.
pub interleave-shape :
    {A : Type 0} (r : Result A) (ts : List Thread) (p : Phase) (d : AwaitableData A)
    → interleave r ts (shape r p) ≡ some d
    → (q : Phase) × (d ≡ shape r q) × (length ts + steps_left q ≤ steps_left p)
unfolding interleave
interleave-shape r [] p d h = (p, sym (some-cancel h), omega arith)
interleave-shape r (t ∷ ts) p d h = elim (Option-cases (next_phase t p)) [
  | inl e ↦ absurd (let no : none ≡ some d = rw (interleave, step-shape r t p, e) at h in cc)
  | inr (p', e) ↦
      let rest : interleave r ts (shape r p') ≡ some d =
        rw (interleave, step-shape r t p, e) at h in
      let (q, at, less) = interleave-shape r ts p' d rest in
      (q, at, omega (arith, less, next_phase_less t p p' e))
]
