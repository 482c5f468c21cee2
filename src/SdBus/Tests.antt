-- ===== src/SdBus/Tests.antt =====
-- Two threads: the second waits while the first processes an event.
use sdbus_cpp.Prelude.{All, none, some, List, [], ◌∷◌, ◌≡◌, refl, arith}
use sdbus_cpp.SdBus.{
  process, send, flush, Callers, CallStep, begins, begin_call, return_call, call_steps, nobody,
  with_calls,
}
use sdbus_cpp.SdBus.Reentrant.{IsUnguarded, call_steps_lem}

-- The first thread processes an event, whose callback sends a message; the second one flushes.
abbrev nested : List CallStep
nested = begins 1 process ∷ begins 2 flush ∷ begins 1 send ∷ []

abbrev inside : Callers
inside = record {
  mutex = record { owner = 1; depth = 2 };
  calls =
      with_calls 1 (send ∷ process ∷ [])
        (with_calls 2 (flush ∷ []) (with_calls 1 (process ∷ []) (λ thread. [])));
}

nested-inside : call_steps nested nobody ≡ some inside
unfolding call_steps
nested-inside = refl

call_steps_example :
    All IsUnguarded (inside.calls 2)
    × ((s' : Callers) × (begin_call 1 send inside ≡ some s'))
    × ((s' : Callers) × (return_call 1 (inside.calls 1) inside ≡ some s'))
unfolding IsUnguarded with_calls
call_steps_example =
    call_steps_lem nested inside 1 2 send nested-inside (λ (unguarded, _). unguarded)
      (λ e. omega (arith, e))

-- The second thread cannot begin to send.
second_waits : begin_call 2 send inside ≡ none
unfolding begin_call
second_waits = refl
