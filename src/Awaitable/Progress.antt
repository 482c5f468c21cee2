-- ===== src/Awaitable/Progress.antt =====
-- What every interleaving of the coroutine and the callback comes to.
use sdbus_cpp.Prelude.{some, List, [], ◌∷◌, Result, ◌≡◌, ◌≢◌, refl, sym, subst, inl, inr, ◌⊎◌}
use sdbus_cpp.Awaitable.{
  resumed, returned, Thread, coroutine_thread, callback_thread, AwaitableData, fresh_data, step,
  interleave,
}
use sdbus_cpp.Awaitable.Phases.{
  Early, Phase, ahead, asleep, awake, at_check, at_store, at_swap, before_result, before_exchange,
  exchanged, place, shape, interleave-shape, step-shape,
}

place_early : (e : Early) → place e ≢ resumed
place_early at_check h = cc
place_early at_store h = cc
place_early at_swap h = cc

module _ {A : Type 0} (r : Result A) where
  -- The coroutine did not go on yet and read nothing, or it went on once and read the answer.
  unfoldable pub IsAnsweredOnce : AwaitableData A → Type 0
  IsAnsweredOnce d =
      (d.coroutine ≢ resumed) × (d.results ≡ [])
      ⊎ (d.coroutine ≡ resumed) × (d.results ≡ some r ∷ [])

  shape-IsAnsweredOnce : (p : Phase) → IsAnsweredOnce (shape r p)
  unfolding IsAnsweredOnce
  shape-IsAnsweredOnce (ahead e before_result) = inl (place_early e, refl)
  shape-IsAnsweredOnce (ahead e before_exchange) = inl (place_early e, refl)
  shape-IsAnsweredOnce (ahead e exchanged) = inl (place_early e, refl)
  shape-IsAnsweredOnce (asleep before_result) = inl ((λ e. cc), refl)
  shape-IsAnsweredOnce (asleep before_exchange) = inl ((λ e. cc), refl)
  shape-IsAnsweredOnce (asleep exchanged) = inl ((λ e. cc), refl)
  shape-IsAnsweredOnce (awake b) = inr (refl, refl)

  -- Some thread can take a step.
  unfoldable pub CanStep : AwaitableData A → Type 0
  CanStep d = (t : Thread) × (d' : AwaitableData A) × (step r t d ≡ some d')

  shape-CanStep : (p : Phase) → ((shape r p).results ≡ some r ∷ []) ⊎ CanStep (shape r p)
  unfolding CanStep
  shape-CanStep (awake b) = inl refl
  shape-CanStep (ahead e before_result) =
      inr (callback_thread, _, step-shape r callback_thread (ahead e before_result))
  shape-CanStep (ahead e before_exchange) =
      inr (callback_thread, _, step-shape r callback_thread (ahead e before_exchange))
  shape-CanStep (ahead at_check exchanged) =
      inr (coroutine_thread, _, step-shape r coroutine_thread (ahead at_check exchanged))
  shape-CanStep (ahead at_store exchanged) =
      inr (coroutine_thread, _, step-shape r coroutine_thread (ahead at_store exchanged))
  shape-CanStep (ahead at_swap exchanged) =
      inr (coroutine_thread, _, step-shape r coroutine_thread (ahead at_swap exchanged))
  shape-CanStep (asleep before_result) =
      inr (callback_thread, _, step-shape r callback_thread (asleep before_result))
  shape-CanStep (asleep before_exchange) =
      inr (callback_thread, _, step-shape r callback_thread (asleep before_exchange))
  shape-CanStep (asleep exchanged) =
      inr (callback_thread, _, step-shape r callback_thread (asleep exchanged))

  shape-callback :
      (p : Phase)
      → ((shape r p).callback ≡ returned)
        ⊎ ((d' : AwaitableData A) × (step r callback_thread (shape r p) ≡ some d'))
  shape-callback (awake b) = inl refl
  shape-callback (ahead e before_result) =
      inr (_, step-shape r callback_thread (ahead e before_result))
  shape-callback (ahead e before_exchange) =
      inr (_, step-shape r callback_thread (ahead e before_exchange))
  shape-callback (ahead e exchanged) = inl refl
  shape-callback (asleep before_result) =
      inr (_, step-shape r callback_thread (asleep before_result))
  shape-callback (asleep before_exchange) =
      inr (_, step-shape r callback_thread (asleep before_exchange))
  shape-callback (asleep exchanged) = inr (_, step-shape r callback_thread (asleep exchanged))

-- In every interleaving the coroutine goes on at most once, and then it reads what the callback
-- stored.
pub answered_once :
    {A : Type 0} (r : Result A) (ts : List Thread) (d : AwaitableData A)
    → interleave r ts fresh_data ≡ some d
    → IsAnsweredOnce r d
answered_once r ts d h =
    let (p, e, _) = interleave-shape r ts (ahead at_check before_result) d h in
    subst (IsAnsweredOnce r) (sym e) (shape-IsAnsweredOnce r p)

-- No wakeup is lost: after any interleaving the coroutine has gone on with the answer, or a thread
-- can take a further step.
pub never_stuck :
    {A : Type 0} (r : Result A) (ts : List Thread) (d : AwaitableData A)
    → interleave r ts fresh_data ≡ some d
    → (d.results ≡ some r ∷ []) ⊎ CanStep r d
never_stuck r ts d h =
    let (p, e, _) = interleave-shape r ts (ahead at_check before_result) d h in
    subst (λ c. (c.results ≡ some r ∷ []) ⊎ CanStep r c) (sym e) (shape-CanStep r p)

-- The callback always has a next step until it returns, so it never waits for the coroutine, and
-- when it resumes, the coroutine is suspended and its handle was stored.
pub callback_free :
    {A : Type 0} (r : Result A) (ts : List Thread) (d : AwaitableData A)
    → interleave r ts fresh_data ≡ some d
    → (d.callback ≡ returned) ⊎ ((d' : AwaitableData A) × (step r callback_thread d ≡ some d'))
callback_free {A = A} r ts d h =
    let (p, e, _) = interleave-shape r ts (ahead at_check before_result) d h in
    subst
      (λ c.
        (c.callback ≡ returned) ⊎ ((d' : AwaitableData A) × (step r callback_thread c ≡ some d')))
      (sym e) (shape-callback r p)
