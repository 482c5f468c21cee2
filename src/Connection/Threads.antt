-- ===== src/Connection/Threads.antt =====
-- The event loop of src/Connection.cpp in one thread, and calls on the same connection in others. A
-- thread moves from one access of shared state to the next, of the bus (which a mutex guards) or of
-- an event descriptor; the threads move in any order. The loop is `enterEventLoop`, or an sd-event
-- loop with the handlers that `attachSdEventLoop` installs.
use sdbus_cpp.Prelude.{
  ℕ, ℤ, is_neg, is_zero, Bool, true, false, ltb, Result, ok, throw, List, [], ◌∷◌, ◌==◌,
  if◌then◌else◌,
}
use sdbus_cpp.Connection.System.{System}
use sdbus_cpp.Connection.Wake.{Connection, are_pending_messages_in_queues}

-- The calls that leave messages in the queues, or shorten the time to wait in poll().
pub data Call : Type 0 where
  requests_name releases_name calls_method sends_message calls_async : Call

-- Where a thread is that makes a call: outside, behind the reading of the timeout with what it read,
-- behind the call on the bus, and before the notification. An exception ends its calls.
pub data Client : Type 0 where
  idle called counted thrown : Client
  timed awaited : ℕ → Client

-- What an sd-event loop does next: a handler for the timer or for I/O, the handler for the event
-- descriptor, or the preparation of poll().
pub data Source : Type 0 where
  timer_or_io internal preparation : Source

-- The second reading of the timeout in callMethodAsync.
unfoldable pub compare_timeouts : ℕ → ℤ × ℕ → Client
compare_timeouts before (r, after) =
    if is_neg r then thrown else if ltb after before then counted else called

unfoldable pub count_messages : Result Bool → Client
count_messages (ok true) = counted
count_messages (ok false) = idle
count_messages (throw e) = thrown

module _ (system : System) where
  -- Where the loop is: before sd_bus_process, before the clearing that follows it, before reading the
  -- poll data, in poll() with the state of the bus that they are of, before the clearing that follows
  -- a wake-up; between the handlers of sd-event, and before the clearing in one of them; and outside,
  -- after an exception or the request to exit.
  pub data LoopAt : Type 0 where
    processes clears prepares wakes dispatches dispatch_clears leaves left failed : LoopAt
    polls : system.Bus → LoopAt

  pub record Threads : Type 0 where
    pub connection : Connection system
    pub loop : LoopAt
    pub clients : ℕ → Client

  unfoldable pub set_client : ℕ → Client → Threads → Threads
  set_client i p s = record s { clients = λ j. if i == j then p else s.clients j }

  abbrev pub set_bus : system.Bus → Connection system → Connection system
  set_bus bus c = record c { bus = bus }

  -- The call on the bus, and what follows it. sendMessage throws after the wake-up if it fails.
  unfoldable pub after_call : Bool → ℤ × system.Bus → ℕ → Client → Threads → Threads
  unfolding set_client
  after_call throws (r, bus) i next s =
      let s' = record s { connection = set_bus bus s.connection } in
      set_client i (if throws then (if is_neg r then thrown else next) else next) s'

  unfoldable pub begin_call : Call → ℕ → Threads → Threads
  unfolding after_call set_client
  begin_call requests_name i s = after_call true (system.request_name s.connection.bus) i called s
  begin_call releases_name i s = after_call true (system.release_name s.connection.bus) i called s
  begin_call calls_method i s = after_call true (system.call s.connection.bus) i called s
  begin_call sends_message i s = after_call false (system.send s.connection.bus) i called s
  begin_call calls_async i s =
      let (r, before) = system.get_timeout s.connection.bus in
      set_client i (if is_neg r then thrown else timed before) s

  unfoldable pub notify : ℕ → Threads → Threads
  unfolding set_client
  notify i s =
      let (r, fd) = system.eventfd_write s.connection.event_fd in
      set_client i (if is_neg r then thrown else idle)
        (record s { connection = record s.connection { event_fd = fd } })

  -- The next move of a thread; outside of calls it begins this one.
  unfoldable pub client_step : Call → ℕ → Threads → Threads
  unfolding begin_call compare_timeouts count_messages notify after_call set_client
  client_step call i s = elim (s.clients i) [
    | idle ↦ begin_call call i s
    | called ↦ set_client i (count_messages (are_pending_messages_in_queues system s.connection)) s
    | counted ↦ notify i s
    | thrown ↦ s
    | timed before ↦ after_call true (system.call_async s.connection.bus) i (awaited before) s
    | awaited before ↦
        set_client i (compare_timeouts before (system.get_timeout s.connection.bus)) s
  ]

  -- sd_bus_process in processPendingEvent.
  unfoldable pub process_then : LoopAt → LoopAt → Threads → Threads
  process_then nothing_left next s =
      let (r, bus) = system.process s.connection.bus in
      record s {
        connection = set_bus bus s.connection;
        loop = if is_neg r then failed else if is_zero r then nothing_left else next;
      }

  -- EventFd::clear
  unfoldable pub clear_then : LoopAt → LoopAt → Threads → Threads
  clear_then on_failure next s =
      let (r, fd) = system.eventfd_read s.connection.event_fd in
      record s {
        connection = record s.connection { event_fd = fd };
        loop = if is_neg r then on_failure else next;
      }

  unfoldable pub leave : Threads → Threads
  leave s =
      let (r, fd) = system.eventfd_read s.connection.loop_exit_fd in
      record s {
        connection = record s.connection { loop_exit_fd = fd };
        loop = if is_neg r then failed else left;
      }

  -- The poll data are those of the bus at that time.
  unfoldable pub prepare : Threads → Threads
  prepare s = record s { loop = polls s.connection.bus }

  -- poll() returned, and reported which event descriptors are readable.
  unfoldable pub poll_returns : Threads → Threads
  poll_returns s = record s {
    loop =
        if system.is_readable s.connection.event_fd
        then wakes
        else if system.is_readable s.connection.loop_exit_fd
        then leaves
        else processes;
  }

  -- A move of enterEventLoop.
  unfoldable pub loop_step : Threads → Threads
  unfolding process_then clear_then leave prepare poll_returns
  loop_step s = elim s.loop [
    | processes ↦ process_then clears prepares s
    | clears ↦ clear_then prepares prepares s
    | prepares ↦ prepare s
    | polls snapshot ↦ poll_returns s
    | wakes ↦ clear_then failed prepares s
    | leaves ↦ leave s
    | _ ↦ s
  ]

  unfoldable pub handle_source : Source → Threads → Threads
  unfolding process_then clear_then prepare
  handle_source timer_or_io s = process_then dispatch_clears dispatches s
  handle_source internal s = clear_then dispatches dispatches s
  handle_source preparation s = prepare s

  -- A move of an sd-event loop: onSdTimerEvent, onSdIoEvent, onSdInternalEvent or onSdEventPrepare.
  unfoldable pub sd_event_step : Source → Threads → Threads
  unfolding handle_source clear_then
  sd_event_step source s = elim s.loop [
    | dispatches ↦ handle_source source s
    | dispatch_clears ↦ clear_then dispatches dispatches s
    | polls snapshot ↦ record s { loop = dispatches }
    | _ ↦ s
  ]

  -- The choice of who moves.
  pub data Turn : Type 0 where
    client_turn : Call → ℕ → Turn
    loop_turn : Turn
    sd_event_turn : Source → Turn

  unfoldable pub take_turn : Turn → Threads → Threads
  unfolding client_step loop_step sd_event_step
  take_turn (client_turn call i) s = client_step call i s
  take_turn loop_turn s = loop_step s
  take_turn (sd_event_turn source) s = sd_event_step source s

  unfoldable pub take_turns : List Turn → Threads → Threads
  unfolding take_turn
  take_turns [] s = s
  take_turns (t ∷ ts) s = take_turns ts (take_turn t s)

  -- The beginning: of enterEventLoop, or of the sd-event loop.
  abbrev pub begin_with : LoopAt → Connection system → Threads
  begin_with at c = record { connection = c; loop = at; clients = λ i. idle }
