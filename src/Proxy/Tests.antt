-- ===== src/Proxy/Tests.antt =====
-- Two calls: the first is answered before its thread put it into the container, the second is
-- cancelled.
use sdbus_cpp.Prelude.{◌+◌, ◌≤◌, true, List, [], ◌∷◌, ◌≡◌, refl, Option, none, some, arith}
use sdbus_cpp.Proxy.Counts.{count, same, remove}
use sdbus_cpp.Proxy.Events.{
  Event, send, push, begin, finish, cancel, release, State, initial, owners, run,
}
use sdbus_cpp.Proxy.Safety.{running_owned, finished_out}
use sdbus_cpp.Proxy.Cancelled.{IsGone, StaysGone, gone_silent}
use sdbus_cpp.Proxy.Heard.{sent_heard, all_spare, spares}

abbrev started : List Event
started = send ∷ begin 0 ∷ []

abbrev answered : List Event
answered = send ∷ begin 0 ∷ finish ∷ push 0 ∷ []

abbrev cancelled : List Event
cancelled = send ∷ push 0 ∷ cancel 0 ∷ release 0 ∷ []

abbrev another : List Event
another = send ∷ push 1 ∷ begin 1 ∷ finish ∷ []

abbrev state_of : Option State → State
state_of none = initial
state_of (some s) = s

abbrev after_started : State
after_started = state_of (run started initial)

abbrev after_answered : State
after_answered = state_of (run answered initial)

abbrev after_cancelled : State
after_cancelled = state_of (run cancelled initial)

abbrev after_another : State
after_another = state_of (run another after_cancelled)

started_runs : run started initial ≡ some after_started
unfolding run count same remove
started_runs = refl

started_running : after_started.running ≡ some 0
unfolding run count same remove
started_running = refl

answered_runs : run answered initial ≡ some after_answered
unfolding run count same remove
answered_runs = refl

answered_finished : after_answered.calls.finished 0 ≡ true
unfolding run count same remove
answered_finished = refl

cancelled_runs : run cancelled initial ≡ some after_cancelled
unfolding run count same remove
cancelled_runs = refl

another_runs : run another after_cancelled ≡ some after_another
unfolding run count same remove
another_runs = refl

cancelled-IsGone : IsGone 0 after_cancelled
unfolding run count same remove IsGone
cancelled-IsGone = (omega arith, refl)

answered_spare : all_spare 0 answered ≡ true
unfolding spares
answered_spare = refl

answered_next : 1 ≤ after_answered.next
unfolding run count same remove
answered_next = omega arith

running_owned_example : 1 ≤ owners 0 after_started
running_owned_example = running_owned started after_started 0 started_runs started_running

finished_out_example : count 0 after_answered.calls.slots ≡ 0
finished_out_example = finished_out answered after_answered 0 answered_runs answered_finished

gone_silent_example : StaysGone 0 after_cancelled after_another
gone_silent_example =
    gone_silent cancelled another after_cancelled after_another 0 cancelled_runs another_runs
      cancelled-IsGone

sent_heard_example : 1 ≤ count 0 after_answered.registered + count 0 after_answered.invoked
sent_heard_example = sent_heard answered after_answered 0 answered_runs answered_spare answered_next
