-- ===== src/Awaitable/Tests.antt =====
-- A coroutine that is suspended between the two halves of the callback.
use sdbus_cpp.Prelude.{ℕ, Option, none, some, List, [], ◌∷◌, Result, ok, ◌≡◌, refl, ◌⊎◌}
use sdbus_cpp.Awaitable.{
  returned, Thread, coroutine_thread, callback_thread, AwaitableData, fresh_data, step, interleave,
}
use sdbus_cpp.Awaitable.Progress.{
  IsAnsweredOnce, CanStep, answered_once, never_stuck, callback_free,
}

abbrev schedule : List Thread
schedule =
    coroutine_thread ∷ callback_thread ∷ coroutine_thread ∷ coroutine_thread ∷ callback_thread ∷ []

abbrev answer : Result ℕ
answer = ok 7

abbrev data_of : Option (AwaitableData ℕ) → AwaitableData ℕ
data_of none = fresh_data
data_of (some d) = d

abbrev before_resumption : AwaitableData ℕ
before_resumption = data_of (interleave answer schedule fresh_data)

schedule_runs : interleave answer schedule fresh_data ≡ some before_resumption
unfolding interleave
schedule_runs = refl

answered_once_example : IsAnsweredOnce answer before_resumption
answered_once_example = answered_once answer schedule before_resumption schedule_runs

never_stuck_example :
    (before_resumption.results ≡ some answer ∷ []) ⊎ CanStep answer before_resumption
never_stuck_example = never_stuck answer schedule before_resumption schedule_runs

callback_free_example :
    (before_resumption.callback ≡ returned)
    ⊎ ((d' : AwaitableData ℕ) × (step answer callback_thread before_resumption ≡ some d'))
callback_free_example = callback_free answer schedule before_resumption schedule_runs
