-- ===== src/Proxy/Events.antt =====
-- The life of a proxy's asynchronous calls, one event at a time: src/Proxy.cpp, between the clients'
-- threads and the thread of the event loop. `none` means that the event cannot happen now.
use sdbus_cpp.Prelude.{
  ℕ, suc, ◌+◌, Bool, true, false, ◌&&◌, not, List, [], ◌∷◌, ◌++◌, ◌==◌, ltb, Option, none, some,
  if◌then◌else◌,
}
use sdbus_cpp.Proxy.Counts.{count, remove}
use sdbus_cpp.Proxy.Calls.{Calls, push_back, erase, clear}

pub data Event : Type 0 where
  -- A thread in callMethodAsync has sent the message of a new call.
  send : Event
  -- The same thread puts the call into the container and returns the client's handle.
  push : ℕ → Event
  -- The event loop gets the answer and invokes the callback.
  begin : ℕ → Event
  -- The callback is over, and the handler leaves its scope.
  finish : Event
  -- The client cancels a call whose handle it has.
  cancel : ℕ → Event
  -- The client unregisters or destroys the proxy.
  unregister : Event
  -- A thread that cancelled or unregistered drops its ownership of a call.
  release : ℕ → Event

pub record State : Type 0 where
  pub calls : Calls
  -- The number of the next call.
  pub next : ℕ
  -- The owners of calls other than the container: threads in callMethodAsync, and threads that
  -- took calls out of the container.
  pub pushing : List ℕ
  pub dying : List ℕ
  -- The calls whose slot is registered with libsystemd.
  pub registered : List ℕ
  -- The call whose callback runs, in the critical section of libsystemd's mutex.
  pub running : Option ℕ
  -- The callbacks that were invoked so far.
  pub invoked : List ℕ

abbrev pub initial : State
initial = record {
  calls = record { slots = []; finished = λ i. false };
  next = 0;
  pushing = [];
  dying = [];
  registered = [];
  running = none;
  invoked = [];
}

-- The reference count of the shared pointers to a call.
unfoldable pub owners : ℕ → State → ℕ
owners i s = count i s.pushing + count i s.calls.slots + count i s.dying

-- With its last owner a call is destroyed, and its slot with libsystemd is released.
unfoldable pub drop : ℕ → State → State
drop i s = if owners i s == 0 then record s { registered = remove i s.registered } else s

unfoldable pub send_call : State → State
send_call s = record s {
  next = suc s.next;
  pushing = s.next ∷ s.pushing;
  registered = s.next ∷ s.registered;
}

unfoldable pub push_call : ℕ → State → State
unfolding push_back drop owners
push_call i s = drop i (record s { calls = push_back i s.calls; pushing = remove i s.pushing })

unfoldable pub begin_callback : ℕ → State → State
begin_callback i s = record s {
  registered = remove i s.registered;
  running = some i;
  invoked = i ∷ s.invoked;
}

unfoldable pub finish_callback : ℕ → State → State
unfolding erase drop owners
finish_callback i s = drop i (record s { calls = erase i s.calls; running = none })

-- PendingAsyncCall::cancel: nothing happens if the call is gone.
unfoldable pub cancel_call : ℕ → State → State
unfolding erase owners
cancel_call i s =
    if owners i s == 0 then s else record s { calls = erase i s.calls; dying = i ∷ s.dying }

unfoldable pub unregister_calls : State → State
unfolding clear
unregister_calls s =
    let (taken, calls) = clear s.calls in record s { calls = calls; dying = taken ++ s.dying }

unfoldable pub release_call : ℕ → State → State
unfolding drop owners
release_call i s = drop i (record s { dying = remove i s.dying })

-- A callback runs when libsystemd is not running one and has the call's slot. A handle is returned
-- after the call was put into the container. Releasing a slot waits for libsystemd's mutex, so a
-- call is not released while its own callback runs, in another thread. Left out is what a callback
-- can do to its own call in its own thread: cancelling it, or unregistering its own proxy, releases
-- the call's record while the callback runs.
unfoldable pub is_possible : Event → State → Bool
is_possible send s = true
is_possible (push i) s = ltb 0 (count i s.pushing)
is_possible (begin i) s = elim s.running [ none ↦ ltb 0 (count i s.registered) | some j ↦ false ]
is_possible finish s = true
is_possible (cancel i) s = ltb i s.next && (count i s.pushing == 0)
is_possible unregister s = true
is_possible (release i) s = elim s.running [
  | none ↦ ltb 0 (count i s.dying)
  | some j ↦ ltb 0 (count i s.dying) && not (j == i)
]

unfoldable pub happen : Event → State → State
unfolding send_call push_call begin_callback finish_callback cancel_call unregister_calls
    release_call
happen send s = send_call s
happen (push i) s = push_call i s
happen (begin i) s = begin_callback i s
happen finish s = elim s.running [ none ↦ s | some i ↦ finish_callback i s ]
happen (cancel i) s = cancel_call i s
happen unregister s = unregister_calls s
happen (release i) s = release_call i s

unfoldable pub run : List Event → State → Option State
unfolding happen is_possible
run [] s = some s
run (e ∷ es) s = elim (is_possible e s) [ true ↦ run es (happen e s) | false ↦ none ]
