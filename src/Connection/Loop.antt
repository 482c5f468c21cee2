-- ===== src/Connection/Loop.antt =====
-- `Connection::waitForNextEvent`, `processPendingEvent` and `enterEventLoop` of src/Connection.cpp.
use sdbus_cpp.Prelude.{
  ℕ, zero, suc, ℤ, is_neg, is_zero, errno_of, Bool, true, false, not, ◌==◌, Result, ok, throw,
  errno_error, throw_error_if, out_of_fuel, ◌≡◌, refl, ap, ◌∙◌, inl, inr, Bool-cases, if◌then◌else◌,
}
use sdbus_cpp.Connection.System.{System, EventFdLaws}
use sdbus_cpp.Connection.Wake.{Connection, Outcome}

-- EINTR
abbrev pub interrupted : ℕ
interrupted = 4

module _ (system : System) where
  abbrev poll_result : Connection system → ℤ × ℕ
  poll_result c = system.poll c.bus c.event_fd c.loop_exit_fd

  -- One event is processed; with none to process, the event descriptor is cleared.
  unfoldable pub process_pending_event : Connection system → Connection system × Result Bool
  process_pending_event c =
      let (r, bus) = system.process c.bus in
      let c' = record c { bus = bus } in
      if is_neg r
      then (c', throw (errno_error (errno_of r) "Failed to process bus requests"))
      else if is_zero r
      then (record c' { event_fd = (system.eventfd_read c.event_fd).1 }, ok false)
      else (c', ok true)

  -- False asks the loop to exit. The function calls itself after each wake-up,
  -- so it has fuel. (The result of poll() says which descriptors are readable.)
  unfoldable pub wait_for_next_event : ℕ → Connection system → Connection system × Result Bool
  wait_for_next_event zero c = (c, throw out_of_fuel)
  wait_for_next_event (suc fuel) c =
      let (got, timeout) = system.get_timeout c.bus in
      let (r, number) = poll_result c in
      let (woken, event_fd) = system.eventfd_read c.event_fd in
      let (left, exit_fd) = system.eventfd_read c.loop_exit_fd in
      let again = wait_for_next_event fuel (record c { event_fd = event_fd }) in
      if is_neg got
      then (c, throw (errno_error (errno_of got) "Failed to get bus poll data"))
      else if is_neg r
      then (if number == interrupted
          then (c, ok true)
          else (c, throw (errno_error number "Failed to wait on the bus")))
      else if system.is_readable c.event_fd
      then (if is_neg woken
          then (
            record c { event_fd = event_fd },
            throw (errno_error (errno_of woken) "Failed to read from the event descriptor"),
          )
          else again)
      else if system.is_readable c.loop_exit_fd
      then (if is_neg left
          then (
            record c { loop_exit_fd = exit_fd },
            throw (errno_error (errno_of left) "Failed to read from the loop exit descriptor"),
          )
          else (record c { loop_exit_fd = exit_fd }, ok false))
      else (c, ok true)

  -- Two rounds of waiting are enough for each event.
  unfoldable pub enter_event_loop : ℕ → Connection system → Outcome system
  unfolding process_pending_event wait_for_next_event
  enter_event_loop zero c = (c, throw out_of_fuel)
  enter_event_loop (suc fuel) c =
      let (processed, event) = process_pending_event c in
      let (waited, success) = wait_for_next_event 2 processed in
      let rest = enter_event_loop fuel waited in
      elim event [
        | throw e ↦ (processed, throw e)
        | ok _ ↦ (elim success [
          | throw e ↦ (waited, throw e)
          | ok true ↦ rest
          | ok false ↦ (waited, ok tt)
        ])
      ]

  -- EventFd::notify on loopExitFd_.
  unfoldable pub notify_event_loop_to_exit : Connection system → Outcome system
  notify_event_loop_to_exit c =
      let (r, fd) = system.eventfd_write c.loop_exit_fd in
      (
        record c { loop_exit_fd = fd },
        throw_error_if (is_neg r) "Failed to notify event descriptor" (errno_of r),
      )

  module _ (laws : EventFdLaws system) where
    -- The poll data can be got, and poll() does not fail.
    abbrev pub PollWorks : Type 0
    PollWorks =
        (c : Connection system)
        → (is_neg (system.get_timeout c.bus).0 ≡ false) × (is_neg (poll_result c).0 ≡ false)

    quiet_wait_lem :
        (fuel : ℕ) (c : Connection system)
        → PollWorks
        → system.is_readable c.event_fd ≡ false
        → (wait_for_next_event (suc fuel) c).1 ≡ ok (not (system.is_readable c.loop_exit_fd))
    unfolding wait_for_next_event
    quiet_wait_lem fuel c works quiet = elim (Bool-cases (system.is_readable c.loop_exit_fd)) [
      | inl e ↦
          rw
            (wait_for_next_event, (works c).0, (works c).1, quiet, e, laws.read_ok c.loop_exit_fd e)
            refl
      | inr e ↦ rw (wait_for_next_event, (works c).0, (works c).1, quiet, e) refl
    ]

    -- Two rounds are always enough: if the poll data can be got and poll() does not fail, the wait returns, and it asks the loop
    -- to exit exactly when the exit descriptor was notified, whether or not a wake-up was pending.
    pub wait_for_next_event_lem :
        (fuel : ℕ) (c : Connection system)
        → PollWorks
        → (wait_for_next_event (suc (suc fuel)) c).1 ≡ ok (not (system.is_readable c.loop_exit_fd))
    unfolding wait_for_next_event
    wait_for_next_event_lem fuel c works = elim (Bool-cases (system.is_readable c.event_fd)) [
      | inr quiet ↦ quiet_wait_lem (suc fuel) c works quiet
      | inl woken ↦
          let c' = record c { event_fd = (system.eventfd_read c.event_fd).1 } in
          let clear = laws.read_clears c.event_fd woken in
          let taken = laws.read_ok c.event_fd woken in
          elim (Bool-cases (system.is_readable c.loop_exit_fd)) [
            | inl e ↦
                rw
                  (
                    wait_for_next_event,
                    (works c).0,
                    (works c).1,
                    woken,
                    taken,
                    (works c').1,
                    clear,
                    e,
                    laws.read_ok c.loop_exit_fd e,
                  )
                  refl
            | inr e ↦
                rw
                  (
                    wait_for_next_event,
                    (works c).0,
                    (works c).1,
                    woken,
                    taken,
                    (works c').1,
                    clear,
                    e,
                  )
                  refl
          ]
    ]

    process-ok :
        (c : Connection system)
        → is_neg (system.process c.bus).0 ≡ false
        → (b : Bool) × ((process_pending_event c).1 ≡ ok b)
          × ((process_pending_event c).0.loop_exit_fd ≡ c.loop_exit_fd)
    unfolding process_pending_event
    process-ok c h = elim (Bool-cases (is_zero (system.process c.bus).0)) [
      | inl e ↦
          (false, rw (process_pending_event, h, e) refl, rw (process_pending_event, h, e) refl)
      | inr e ↦ (true, rw (process_pending_event, h, e) refl, rw (process_pending_event, h, e) refl)
    ]

    leave-ok :
        (c : Connection system)
        → is_neg (system.eventfd_write c.loop_exit_fd).0 ≡ false
        → ((notify_event_loop_to_exit c).1 ≡ ok tt)
          × (system.is_readable (notify_event_loop_to_exit c).0.loop_exit_fd ≡ true)
    unfolding notify_event_loop_to_exit
    leave-ok c h = rw (notify_event_loop_to_exit, h) (refl, laws.write_readable c.loop_exit_fd h)

    -- When the event loop was asked to exit, it returns after the event that it processes then,
    -- whatever wake-ups and messages are pending, if the event does not fail, the poll data can be got and poll() does not
    -- fail.
    pub enter_event_loop_lem :
        (fuel : ℕ) (c : Connection system)
        → PollWorks
        → is_neg (system.eventfd_write c.loop_exit_fd).0 ≡ false
        → is_neg (system.process c.bus).0 ≡ false
        → (enter_event_loop (suc fuel) (notify_event_loop_to_exit c).0).1 ≡ ok tt
    unfolding enter_event_loop notify_event_loop_to_exit
    enter_event_loop_lem fuel c works written processed =
        let c' = (notify_event_loop_to_exit c).0 in
        let (b, event, kept) = process-ok c' processed in
        let (_, readable) = leave-ok c written in
        let wait = wait_for_next_event_lem 0 (process_pending_event c').0 works in
        let exits : (wait_for_next_event 2 (process_pending_event c').0).1 ≡ ok false =
          wait ∙ ap (λ r. ok (not r)) (ap (λ fd. system.is_readable fd) kept ∙ readable) in
        rw (enter_event_loop, event, exits) refl
