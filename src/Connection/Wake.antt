-- ===== src/Connection/Wake.antt =====
-- The calls of src/Connection.cpp that may leave messages in libsystemd's queues, and wake up the
-- event loop then. A call that throws has changed the state up to there, so each returns the new
-- state with its result.
use sdbus_cpp.Prelude.{
  ℤ, is_neg, errno_of, Bool, true, false, ◌||◌, ltb, Result, ok, throw, errno_error, throw_error_if,
  ◌≡◌, refl, ◌⊎◌, inl, inr, String, Bool-cases, if◌then◌else◌,
}
use sdbus_cpp.Connection.System.{System, EventFdLaws}

module _ (system : System) where
  pub record Connection : Type 0 where
    pub bus : system.Bus
    pub event_fd : system.Fd
    pub loop_exit_fd : system.Fd

  abbrev pub Outcome : Type 0
  Outcome = Connection × Result (Unit {0})

  -- EventFd::notify on eventFd_.
  unfoldable pub notify_event_loop_to_wake_up : Connection → Outcome
  notify_event_loop_to_wake_up c =
      let (r, fd) = system.eventfd_write c.event_fd in
      (
        record c { event_fd = fd },
        throw_error_if (is_neg r) "Failed to notify event descriptor" (errno_of r),
      )

  unfoldable pub are_pending_messages_in_queues : Connection → Result Bool
  are_pending_messages_in_queues c =
      let (r, (reads, writes)) = system.get_n_queued c.bus in
      if is_neg r
      then throw
          (errno_error (errno_of r) "Failed to get number of pending messages in sd-bus queues")
      else ok (ltb 0 reads || ltb 0 writes)

  unfoldable pub wake_up_event_loop_if_messages_in_queue : Connection → Outcome
  unfolding are_pending_messages_in_queues notify_event_loop_to_wake_up
  wake_up_event_loop_if_messages_in_queue c = elim (are_pending_messages_in_queues c) [
    | throw e ↦ (c, throw e)
    | ok true ↦ notify_event_loop_to_wake_up c
    | ok false ↦ (c, ok tt)
  ]

  -- No message is in the queues, or the next poll() of the event loop returns at once.
  abbrev pub IsAwake : Connection → Type 0
  IsAwake c = (are_pending_messages_in_queues c ≡ ok false) ⊎ (system.is_readable c.event_fd ≡ true)

  -- A call on the bus that throws if it fails, and wakes up the loop otherwise.
  unfoldable pub call_and_wake : (system.Bus → ℤ × system.Bus) → String → Connection → Outcome
  unfolding wake_up_event_loop_if_messages_in_queue
  call_and_wake call what c =
      let (r, bus) = call c.bus in
      let c' = record c { bus = bus } in
      if is_neg r
      then (c', throw (errno_error (errno_of r) what))
      else wake_up_event_loop_if_messages_in_queue c'

  unfoldable pub request_name : Connection → Outcome
  unfolding call_and_wake
  request_name = call_and_wake system.request_name "Failed to request bus name"

  unfoldable pub release_name : Connection → Outcome
  unfolding call_and_wake
  release_name = call_and_wake system.release_name "Failed to release bus name"

  -- Without an error that the peer replied with, which is thrown as it is.
  unfoldable pub call_method : Connection → Outcome
  unfolding call_and_wake
  call_method = call_and_wake system.call "Failed to call method"

  -- The loop is woken up even if sending failed.
  unfoldable pub send_message : Connection → Outcome
  unfolding wake_up_event_loop_if_messages_in_queue
  send_message c =
      let (r, bus) = system.send c.bus in
      let (c', woken) = wake_up_event_loop_if_messages_in_queue (record c { bus = bus }) in
      elim woken [
        | throw e ↦ (c', throw e)
        | ok _ ↦ (c', throw_error_if (is_neg r) "Failed to send D-Bus message" (errno_of r))
      ]

  -- The loop is woken up when the call has made the time to wait in poll() shorter, or left messages
  -- in the queues.
  unfoldable pub call_method_async : Connection → Outcome
  unfolding notify_event_loop_to_wake_up wake_up_event_loop_if_messages_in_queue
  call_method_async c =
      let (got, before) = system.get_timeout c.bus in
      let (r, bus) = system.call_async c.bus in
      let (got', after) = system.get_timeout bus in
      let c' = record c { bus = bus } in
      if is_neg got
      then (c, throw (errno_error (errno_of got) "Failed to get bus poll data"))
      else if is_neg r
      then (c', throw (errno_error (errno_of r) "Failed to call method asynchronously"))
      else if is_neg got'
      then (c', throw (errno_error (errno_of got') "Failed to get bus poll data"))
      else if ltb after before
      then notify_event_loop_to_wake_up c'
      else wake_up_event_loop_if_messages_in_queue c'

  pub data Operation : Type 0 where
    requests_name releases_name calls_method sends_message : Operation

  unfoldable pub perform : Operation → Connection → Outcome
  unfolding request_name release_name call_method send_message
  perform requests_name = request_name
  perform releases_name = release_name
  perform calls_method = call_method
  perform sends_message = send_message

  module _ (laws : EventFdLaws system) where
    notify-IsAwake :
        (c : Connection)
        → (notify_event_loop_to_wake_up c).1 ≡ ok tt
        → IsAwake (notify_event_loop_to_wake_up c).0
    unfolding notify_event_loop_to_wake_up
    notify-IsAwake c h = elim (Bool-cases (is_neg (system.eventfd_write c.event_fd).0)) [
      | inl e ↦ absurd (let no = rw e at h in cc)
      | inr e ↦ inr (laws.write_readable c.event_fd e)
    ]

    wake-IsAwake :
        (c : Connection)
        → (wake_up_event_loop_if_messages_in_queue c).1 ≡ ok tt
        → IsAwake (wake_up_event_loop_if_messages_in_queue c).0
    unfolding wake_up_event_loop_if_messages_in_queue
    wake-IsAwake c = go (are_pending_messages_in_queues c) refl
      where
        go :
            (p : Result Bool)
            → are_pending_messages_in_queues c ≡ p
            → (wake_up_event_loop_if_messages_in_queue c).1 ≡ ok tt
            → IsAwake (wake_up_event_loop_if_messages_in_queue c).0
        go (throw x) e h =
            absurd (let no = rw (wake_up_event_loop_if_messages_in_queue, e) at h in cc)
        go (ok true) e h =
            let h' = rw (wake_up_event_loop_if_messages_in_queue, e) at h in
            rw (wake_up_event_loop_if_messages_in_queue, e) (notify-IsAwake c h')
        go (ok false) e h = rw (wake_up_event_loop_if_messages_in_queue, e) (inl e)

    call_and_wake-IsAwake :
        (call : system.Bus → ℤ × system.Bus) (what : String) (c : Connection)
        → (call_and_wake call what c).1 ≡ ok tt
        → IsAwake (call_and_wake call what c).0
    unfolding call_and_wake
    call_and_wake-IsAwake call what c h = elim (Bool-cases (is_neg (call c.bus).0)) [
      | inl e ↦ absurd (let no = rw (call_and_wake, e) at h in cc)
      | inr e ↦
          rw (call_and_wake, e)
            (wake-IsAwake (record c { bus = (call c.bus).1 }) (rw (call_and_wake, e) at h))
    ]

    send_message-IsAwake :
        (c : Connection) → (send_message c).1 ≡ ok tt → IsAwake (send_message c).0
    unfolding send_message
    send_message-IsAwake c =
        go (wake_up_event_loop_if_messages_in_queue (record c { bus = (system.send c.bus).1 })).1
          refl
      where
        go :
            (p : Result (Unit {0}))
            → (wake_up_event_loop_if_messages_in_queue (record c { bus = (system.send c.bus).1 })).1
              ≡ p
            → (send_message c).1 ≡ ok tt
            → IsAwake (send_message c).0
        go (throw x) e h = absurd (let no = rw (send_message, e) at h in cc)
        go (ok x) e h =
            rw (send_message, e) (wake-IsAwake (record c { bus = (system.send c.bus).1 }) e)

    -- After a name was requested or released, a method called or a message sent, and none of these
    -- threw, no message is left in libsystemd's queues, or the event loop's next poll() returns at
    -- once.
    pub perform-IsAwake :
        (o : Operation) (c : Connection) → (perform o c).1 ≡ ok tt → IsAwake (perform o c).0
    unfolding perform
    perform-IsAwake requests_name c h = call_and_wake-IsAwake system.request_name _ c h
    perform-IsAwake releases_name c h = call_and_wake-IsAwake system.release_name _ c h
    perform-IsAwake calls_method c h = call_and_wake-IsAwake system.call _ c h
    perform-IsAwake sends_message c h = send_message-IsAwake c h

    notify_readable :
        (c : Connection)
        → (notify_event_loop_to_wake_up c).1 ≡ ok tt
        → system.is_readable (notify_event_loop_to_wake_up c).0.event_fd ≡ true
    unfolding notify_event_loop_to_wake_up
    notify_readable c h = elim (Bool-cases (is_neg (system.eventfd_write c.event_fd).0)) [
      | inl e ↦ absurd (let no = rw e at h in cc)
      | inr e ↦ laws.write_readable c.event_fd e
    ]

    -- An asynchronous call that succeeded leaves no message in the queues or the event loop's next
    -- poll() returns at once, and it does so in any case if the call made libsystemd's timeout
    -- earlier.
    pub call_method_async_lem :
        (c : Connection)
        → (call_method_async c).1 ≡ ok tt
        → IsAwake (call_method_async c).0
          × ((ltb (system.get_timeout (system.call_async c.bus).1).1 (system.get_timeout c.bus).1
                ≡ false)
              ⊎ (system.is_readable (call_method_async c).0.event_fd ≡ true))
    unfolding call_method_async
    call_method_async_lem c h =
        let bus = (system.call_async c.bus).1 in
        let c' = record c { bus = bus } in
        elim (Bool-cases (is_neg (system.get_timeout c.bus).0)) [
          | inl e ↦ absurd (let no = rw (call_method_async, e) at h in cc)
          | inr e ↦ elim (Bool-cases (is_neg (system.call_async c.bus).0)) [
            | inl e' ↦ absurd (let no = rw (call_method_async, e, e') at h in cc)
            | inr e' ↦ elim (Bool-cases (is_neg (system.get_timeout bus).0)) [
              | inl e'' ↦ absurd (let no = rw (call_method_async, e, e', e'') at h in cc)
              | inr e'' ↦
                  elim (Bool-cases (ltb (system.get_timeout bus).1 (system.get_timeout c.bus).1)) [
                    | inl s ↦
                        let h' = rw (call_method_async, e, e', e'', s) at h in
                        rw (call_method_async, e, e', e'', s)
                          (notify-IsAwake c' h', inr (notify_readable c' h'))
                    | inr s ↦
                        let h' = rw (call_method_async, e, e', e'', s) at h in
                        rw (call_method_async, e, e', e'', s) (wake-IsAwake c' h', inl refl)
                  ]
            ]
          ]
        ]
