-- ===== src/Connection/Tests.antt =====
-- A small system: an event descriptor is its counter, and a bus the number of its messages.
use sdbus_cpp.Prelude.{
  ℕ, zero, suc, ℤ, pos, ◌+◌, ◌*◌, ◌≤◌, ◌<◌, true, false, ltb, ok, ◌≡◌, refl, ◌⊎◌, arith,
}
use sdbus_cpp.Connection.System.{System, EventFdLaws}
use sdbus_cpp.Connection.Counter.{read_counter, is_counted, read_counter-ok, read_counter-clears}
use sdbus_cpp.Connection.Timeout.{get_poll_timeout, get_poll_timeout_lem}
use sdbus_cpp.Connection.Wake.{
  Connection, IsAwake, perform, sends_message, perform-IsAwake, call_method_async,
  call_method_async_lem,
}
use sdbus_cpp.Connection.Loop.{enter_event_loop, notify_event_loop_to_exit, enter_event_loop_lem}

abbrev process_one : ℕ → ℤ × ℕ
process_one zero = (pos 0, 0)
process_one (suc n) = (pos 1, n)

abbrev one_more : ℕ → ℤ × ℕ
one_more n = (pos 0, suc n)

abbrev counters : System
counters = record {
  Fd = ℕ;
  eventfd_write = one_more;
  eventfd_read = read_counter;
  is_readable = is_counted;
  Bus = ℕ;
  request_name = one_more;
  release_name = one_more;
  call = one_more;
  send = one_more;
  call_async = one_more;
  process = process_one;
  get_n_queued = λ n. (pos 0, (n, 0));
  get_timeout = λ n. (pos 0, 0);
  poll = λ bus event exit. (pos 1, 0);
}

counters_laws : EventFdLaws counters
counters_laws = record {
  write_readable = λ n h. refl;
  read_ok = read_counter-ok;
  read_clears = read_counter-clears;
}

abbrev busy : Connection counters
busy = record { bus = 2; event_fd = 1; loop_exit_fd = 0 }

send_message-ok : (perform counters sends_message busy).1 ≡ ok tt
unfolding perform
send_message-ok = refl

perform-IsAwake_example : IsAwake counters (perform counters sends_message busy).0
perform-IsAwake_example = perform-IsAwake counters counters_laws sends_message busy send_message-ok

enter_event_loop_example :
    (enter_event_loop counters 1 (notify_event_loop_to_exit counters busy).0).1 ≡ ok tt
enter_event_loop_example =
    enter_event_loop_lem counters counters_laws 0 busy (λ c. (refl, refl)) refl refl

get_poll_timeout_example :
    (ms : ℕ) × (get_poll_timeout 5000 1000000 ≡ pos ms)
    × (5000 * 1000 < 1000000 + ms * 1000000 + 1000)
    × (1000000 < 5000 * 1000 → ms * 1000000 + 1000000 < 5000 * 1000 + 1000000)
    × (5000 * 1000 ≤ 1000000 → ms ≡ 0)
get_poll_timeout_example = get_poll_timeout_lem 5000 1000000 (omega arith) (omega arith)

call_method_async-ok : (call_method_async counters busy).1 ≡ ok tt
unfolding call_method_async
call_method_async-ok = refl

call_method_async_example :
    IsAwake counters (call_method_async counters busy).0
    × ((ltb
            (counters.get_timeout (counters.call_async busy.bus).1).1
            (counters.get_timeout busy.bus).1
          ≡ false)
        ⊎ (counters.is_readable (call_method_async counters busy).0.event_fd ≡ true))
call_method_async_example = call_method_async_lem counters counters_laws busy call_method_async-ok
