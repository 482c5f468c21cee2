-- ===== src/Awaitable.antt =====
-- include/sdbus-c++/Awaitable.h and `callMethodAsync` with an awaitable of src/Proxy.cpp: a coroutine
-- that awaits the answer of a call, and the callback of the call in the thread of the event loop.
-- Each step of the two threads is one atomic operation, or what stands between two of them.
use sdbus_cpp.Prelude.{
  ℕ, suc, ◌+◌, Bool, true, false, Option, none, some, List, [], ◌∷◌, Result, ok, throw, Exception,
}
pub mod Phases
pub mod Progress
mod Tests

pub data AwaitableState : Type 0 where
  not_ready waiting completed : AwaitableState

-- Where the coroutine is: before await_ready, before and after it stores its handle in
-- await_suspend, suspended, or past await_resume.
pub data Coroutine : Type 0 where
  checks stores_handle swaps suspended resumed : Coroutine

-- Where the callback is: before it stores the result, before and after the exchange of the status,
-- or at its end.
pub data Callback : Type 0 where
  stores_result exchanges resumes returned : Callback

pub data Thread : Type 0 where
  coroutine_thread callback_thread : Thread

-- `AwaitableData` with the places of the two threads, and what await_resume gave each time.
pub record AwaitableData (A : Type 0) : Type 0 where
  pub result : Option (Result A)
  pub status : AwaitableState
  pub has_handle : Bool
  pub coroutine : Coroutine
  pub callback : Callback
  pub results : List (Option (Result A))

-- Whether the coroutine need not be suspended.
unfoldable pub await_ready : AwaitableState → Bool
await_ready not_ready = false
await_ready waiting = false
await_ready completed = true

-- The exchange tells whether the coroutine waits.
unfoldable pub after_exchange : AwaitableState → Callback
after_exchange not_ready = returned
after_exchange waiting = resumes
after_exchange completed = returned

module _ {A : Type 0} where
  abbrev pub fresh_data : AwaitableData A
  fresh_data = record {
    result = none;
    status = not_ready;
    has_handle = false;
    coroutine = checks;
    callback = stores_result;
    results = [];
  }

  -- The callback stores the reply, or the error of the reply as an exception.
  unfoldable pub outcome : A → Option Exception → Result A
  outcome reply none = ok reply
  outcome reply (some e) = throw e

  -- The coroutine goes on with await_resume, which returns or rethrows the result.
  unfoldable pub await_resume : AwaitableData A → AwaitableData A
  await_resume d = record d { coroutine = resumed; results = d.result ∷ d.results }

  -- compare_exchange_strong from NotReady to Waiting.
  unfoldable pub await_suspend : AwaitableData A → AwaitableData A
  unfolding await_resume
  await_suspend d = elim d.status [
    | not_ready ↦ record d { status = waiting; coroutine = suspended }
    | waiting ↦ await_resume d
    | completed ↦ await_resume d
  ]

  -- The next step of the coroutine; `none` if there is none.
  unfoldable pub coroutine_step : AwaitableData A → Option (AwaitableData A)
  unfolding await_ready await_suspend await_resume
  coroutine_step d = elim d.coroutine [
    | checks ↦ (elim (await_ready d.status) [
      | true ↦ some (await_resume d)
      | false ↦ some (record d { coroutine = stores_handle })
    ])
    | stores_handle ↦ some (record d { has_handle = true; coroutine = swaps })
    | swaps ↦ some (await_suspend d)
    | suspended ↦ none
    | resumed ↦ none
  ]

  -- Resumption of a coroutine that was not suspended, or of a handle that was never stored, is not
  -- defined, and none here.
  unfoldable pub resume_coroutine : AwaitableData A → Option (AwaitableData A)
  unfolding await_resume
  resume_coroutine d = elim d.has_handle [
    | false ↦ none
    | true ↦ (elim d.coroutine [
      | suspended ↦ some (await_resume (record d { callback = returned }))
      | _ ↦ none
    ])
  ]

  unfoldable pub callback_step : Result A → AwaitableData A → Option (AwaitableData A)
  unfolding after_exchange resume_coroutine
  callback_step r d = elim d.callback [
    | stores_result ↦ some (record d { result = some r; callback = exchanges })
    | exchanges ↦ some (record d { status = completed; callback = after_exchange d.status })
    | resumes ↦ resume_coroutine d
    | returned ↦ none
  ]

  unfoldable pub step : Result A → Thread → AwaitableData A → Option (AwaitableData A)
  unfolding coroutine_step callback_step
  step r coroutine_thread d = coroutine_step d
  step r callback_thread d = callback_step r d

  unfoldable pub interleave : Result A → List Thread → AwaitableData A → Option (AwaitableData A)
  unfolding step
  interleave r [] d = some d
  interleave r (t ∷ ts) d = elim (step r t d) [ none ↦ none | some d' ↦ interleave r ts d' ]
