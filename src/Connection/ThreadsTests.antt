-- ===== src/Connection/ThreadsTests.antt =====
-- Threads on a small system: an event descriptor is its counter, and a bus the number of messages in
-- its queues with the timeout of the call that is pending. Without messages that timeout is when the
-- bus wants to be called; with messages it is at once.
use sdbus_cpp.Prelude.{
  ℕ, zero, suc, ℤ, pos, negsuc, true, false, ok, List, [], ◌∷◌, ◌≡◌, refl, ◌⊎◌, inl, arith,
}
use sdbus_cpp.Connection.System.{System, EventFdLaws}
use sdbus_cpp.Connection.Wake.{are_pending_messages_in_queues}
use sdbus_cpp.Connection.Counter.{read_counter, is_counted, read_counter-ok, read_counter-clears}
use sdbus_cpp.Connection.Timeout.{max_timeout}
use sdbus_cpp.Connection.Threads.{
  sends_message, calls_method, calls_async, idle, processes, polls, Threads, set_bus, Turn,
  client_turn, loop_turn, take_turns, begin_with,
}
use sdbus_cpp.Connection.AtWork.{pending}
use sdbus_cpp.Connection.Attended.{Counts, take_turns_lem}

abbrev SmallBus : Type 0
SmallBus = ℕ × ℕ

-- The last message is the reply to the pending call.
abbrev process_one : SmallBus → ℤ × SmallBus
process_one (zero, t) = (pos 0, (0, t))
process_one (suc n, t) = (pos 1, (n, max_timeout))

abbrev wanted : SmallBus → ℤ × ℕ
wanted (zero, t) = (pos 0, t)
wanted (suc n, t) = (pos 0, 0)

-- A synchronous call gets an error for its reply, and a signal that arrived before.
abbrev refused : SmallBus → ℤ × SmallBus
refused (n, t) = (negsuc 52, (suc n, t))

abbrev queued : SmallBus → ℤ × SmallBus
queued (n, t) = (pos 0, (suc n, t))

-- The call is sent at once, and has a timeout.
abbrev sent : SmallBus → ℤ × SmallBus
sent (n, t) = (pos 1, (n, 7000000))

abbrev small : System
small = record {
  Fd = ℕ;
  eventfd_write = λ n. (pos 0, suc n);
  eventfd_read = read_counter;
  is_readable = is_counted;
  Bus = SmallBus;
  request_name = queued;
  release_name = queued;
  call = refused;
  send = queued;
  call_async = sent;
  process = process_one;
  get_n_queued = λ (n, t). (pos 0, (n, 0));
  get_timeout = wanted;
  poll = λ bus event exit. (pos 1, 0);
}

small_laws : EventFdLaws small
small_laws = record {
  write_readable = λ n h. refl;
  read_ok = read_counter-ok;
  read_clears = read_counter-clears;
}

small_counts : Counts small
small_counts (n, t) = refl

abbrev starting : SmallBus → Threads small
starting bus = begin_with small processes (record { bus = bus; event_fd = 0; loop_exit_fd = 0 })

-- The loop goes into poll(); then a thread sends a message, counts and notifies.
abbrev sends_late : List (Turn small)
sends_late =
    loop_turn
    ∷ loop_turn
    ∷ loop_turn
    ∷ client_turn sends_message 0
    ∷ client_turn sends_message 0
    ∷ client_turn sends_message 0
    ∷ []

sends_late-waits :
    (take_turns small sends_late (starting (0, max_timeout))).loop ≡ polls (0, max_timeout)
unfolding take_turns are_pending_messages_in_queues
sends_late-waits = refl

sends_late-quiet :
    (i : ℕ) → (take_turns small sends_late (starting (0, max_timeout))).clients i ≡ idle
unfolding take_turns are_pending_messages_in_queues
sends_late-quiet zero = refl
sends_late-quiet (suc i) = ground arith

take_turns_example :
    let s = take_turns small sends_late (starting (0, max_timeout)) in
    (pending small s.connection ≡ ok false)
    ⊎ ((small.is_readable s.connection.event_fd ≡ true)
        ⊎ (pending small (set_bus small (0, max_timeout) s.connection) ≡ ok true))
take_turns_example =
    take_turns_lem small small_counts small_laws sends_late processes
      (record { bus = (0, max_timeout); event_fd = 0; loop_exit_fd = 0 }) (0, max_timeout)
      (inl refl) sends_late-waits sends_late-quiet

-- A synchronous call that is refused leaves the signal in the queue, and the loop in poll().
abbrev refused_state : Threads small
refused_state =
    take_turns small
      (loop_turn
        ∷ loop_turn
        ∷ loop_turn
        ∷ client_turn calls_method 0
        ∷ client_turn calls_method 0
        ∷ [])
      (starting (0, max_timeout))

signal_unattended :
    (refused_state.loop ≡ polls (0, max_timeout))
    × (refused_state.connection.bus ≡ (1, max_timeout))
    × (refused_state.connection.event_fd ≡ 0)
unfolding take_turns are_pending_messages_in_queues
signal_unattended = (refl, refl, refl)

-- A thread begins an asynchronous call while a reply is in the queue; the loop processes the reply
-- and goes into poll() without a timeout before the call is sent. The call's timeout does not wake
-- the loop up.
abbrev raced_state : Threads small
raced_state =
    take_turns small
      (client_turn calls_async 0
        ∷ loop_turn
        ∷ loop_turn
        ∷ client_turn calls_async 0
        ∷ client_turn calls_async 0
        ∷ client_turn calls_async 0
        ∷ [])
      (starting (1, 5000000))

timeout_unattended :
    (raced_state.loop ≡ polls (0, max_timeout))
    × (raced_state.connection.bus ≡ (0, 7000000))
    × (raced_state.connection.event_fd ≡ 0)
    × (raced_state.clients 0 ≡ idle)
unfolding take_turns are_pending_messages_in_queues
timeout_unattended = (refl, refl, refl, refl)
