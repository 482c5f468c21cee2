-- ===== src/Connection/Attended.antt =====
-- The event loop never waits in poll() for messages that a call has left in the queues.
use sdbus_cpp.Prelude.{
  ℕ, is_neg, is_zero, true, false, ◌||◌, ltb, ok, List, [], ◌∷◌, ◌≡◌, refl, sym, subst, ap, ◌∙◌,
  ◌⊎◌, inl, inr, Bool-cases, if◌then◌else◌,
}
use sdbus_cpp.Connection.System.{System, EventFdLaws}
use sdbus_cpp.Connection.Wake.{Connection, are_pending_messages_in_queues}
use sdbus_cpp.Connection.Threads.{
  idle, Source, timer_or_io, internal, preparation, LoopAt, processes, clears, prepares, wakes,
  dispatches, dispatch_clears, leaves, left, failed, polls, Threads, set_bus, client_step,
  process_then, clear_then, leave, prepare, poll_returns, loop_step, handle_source, sd_event_step,
  Turn, client_turn, loop_turn, sd_event_turn, take_turn, take_turns, begin_with,
}
use sdbus_cpp.Connection.AtWork.{
  at_work, pending, Covered, AttendsAt, Attends, if-AttendsAt, client_step-Attends,
}

-- sd_bus_get_n_queued fails only for a bus that is none.
abbrev pub Counts : System → Type 0
Counts system = (bus : system.Bus) → is_neg (system.get_n_queued bus).0 ≡ false

module _ (system : System) (counts : Counts system) where
  prepare-Attends : (s : Threads system) → Attends system (prepare system s)
  unfolding prepare are_pending_messages_in_queues
  prepare-Attends s =
      let queues = (system.get_n_queued s.connection.bus).1 in
      elim (Bool-cases (ltb 0 queues.0 || ltb 0 queues.1)) [
        | inl e ↦ inr (inr (inl (rw (counts s.connection.bus, e))))
        | inr e ↦ inl (rw (counts s.connection.bus, e))
      ]

  process_then-Attends :
      (nothing_left next : LoopAt system) (s : Threads system)
      → ((t : Threads system) → AttendsAt system nothing_left t)
      → ((t : Threads system) → AttendsAt system next t)
      → Attends system (process_then system nothing_left next s)
  unfolding process_then
  process_then-Attends nothing_left next s p q =
      let (r, bus) = system.process s.connection.bus in
      let t = process_then system nothing_left next s in
      if-AttendsAt system (is_neg r) failed (if is_zero r then nothing_left else next) t tt
        (if-AttendsAt system (is_zero r) nothing_left next t (p t) (q t))

  clear_then-Attends :
      (on_failure next : LoopAt system) (s : Threads system)
      → ((t : Threads system) → AttendsAt system on_failure t)
      → ((t : Threads system) → AttendsAt system next t)
      → Attends system (clear_then system on_failure next s)
  unfolding clear_then
  clear_then-Attends on_failure next s p q =
      let t = clear_then system on_failure next s in
      if-AttendsAt system (is_neg (system.eventfd_read s.connection.event_fd).0) on_failure next t
        (p t) (q t)

  leave-Attends : (s : Threads system) → Attends system (leave system s)
  unfolding leave
  leave-Attends s =
      let (r, fd) = system.eventfd_read s.connection.loop_exit_fd in
      if-AttendsAt system (is_neg r) failed left (leave system s) tt tt

  poll_returns-Attends : (s : Threads system) → Attends system (poll_returns system s)
  unfolding poll_returns
  poll_returns-Attends s =
      let c = s.connection in
      let t = poll_returns system s in
      if-AttendsAt system (system.is_readable c.event_fd) wakes
        (if system.is_readable c.loop_exit_fd then leaves else processes) t tt
        (if-AttendsAt system (system.is_readable c.loop_exit_fd) leaves processes t tt tt)

  loop_step-Attends :
      (at : LoopAt system) (s : Threads system)
      → s.loop ≡ at
      → Attends system s
      → Attends system (loop_step system s)
  unfolding loop_step
  loop_step-Attends processes s e h =
      rw (e, loop_step) (process_then-Attends clears prepares s (λ t. tt) (λ t. tt))
  loop_step-Attends clears s e h =
      rw (e, loop_step) (clear_then-Attends prepares prepares s (λ t. tt) (λ t. tt))
  loop_step-Attends prepares s e h = rw (e, loop_step) (prepare-Attends s)
  loop_step-Attends (polls snapshot) s e h = rw (e, loop_step) (poll_returns-Attends s)
  loop_step-Attends wakes s e h =
      rw (e, loop_step) (clear_then-Attends failed prepares s (λ t. tt) (λ t. tt))
  loop_step-Attends leaves s e h = rw (e, loop_step) (leave-Attends s)
  loop_step-Attends dispatches s e h = rw (e, loop_step) h
  loop_step-Attends dispatch_clears s e h = rw (e, loop_step) h
  loop_step-Attends left s e h = rw (e, loop_step) h
  loop_step-Attends failed s e h = rw (e, loop_step) h

  handle_source-Attends :
      (source : Source) (s : Threads system) → Attends system (handle_source system source s)
  unfolding handle_source
  handle_source-Attends timer_or_io s =
      process_then-Attends dispatch_clears dispatches s (λ t. tt) (λ t. tt)
  handle_source-Attends internal s = clear_then-Attends dispatches dispatches s (λ t. tt) (λ t. tt)
  handle_source-Attends preparation s = prepare-Attends s

  sd_event_step-Attends :
      (source : Source) (at : LoopAt system) (s : Threads system)
      → s.loop ≡ at
      → Attends system s
      → Attends system (sd_event_step system source s)
  unfolding sd_event_step
  sd_event_step-Attends source dispatches s e h =
      rw (e, sd_event_step) (handle_source-Attends source s)
  sd_event_step-Attends source dispatch_clears s e h =
      rw (e, sd_event_step) (clear_then-Attends dispatches dispatches s (λ t. tt) (λ t. tt))
  sd_event_step-Attends source (polls snapshot) s e h = rw (e, sd_event_step) tt
  sd_event_step-Attends source processes s e h = rw (e, sd_event_step) h
  sd_event_step-Attends source clears s e h = rw (e, sd_event_step) h
  sd_event_step-Attends source prepares s e h = rw (e, sd_event_step) h
  sd_event_step-Attends source wakes s e h = rw (e, sd_event_step) h
  sd_event_step-Attends source leaves s e h = rw (e, sd_event_step) h
  sd_event_step-Attends source left s e h = rw (e, sd_event_step) h
  sd_event_step-Attends source failed s e h = rw (e, sd_event_step) h

  take_turns-Attends :
      (laws : EventFdLaws system) (ts : List (Turn system)) (s : Threads system)
      → Attends system s
      → Attends system (take_turns system ts s)
  unfolding take_turns take_turn
  take_turns-Attends laws [] s h = h
  take_turns-Attends laws (client_turn call i ∷ ts) s h =
      take_turns-Attends laws ts (client_step system call i s)
        (client_step-Attends system laws call i s h)
  take_turns-Attends laws (loop_turn ∷ ts) s h =
      take_turns-Attends laws ts (loop_step system s) (loop_step-Attends s.loop s refl h)
  take_turns-Attends laws (sd_event_turn source ∷ ts) s h =
      take_turns-Attends laws ts (sd_event_step system source s)
        (sd_event_step-Attends source s.loop s refl h)

  -- What holds of a loop that waits in poll() while no thread is at work.
  unattended :
      (snapshot : system.Bus) (s : Threads system)
      → Covered system snapshot s
      → ((i : ℕ) → s.clients i ≡ idle)
      → (pending system s.connection ≡ ok false)
        ⊎ ((system.is_readable s.connection.event_fd ≡ true)
            ⊎ (pending system (set_bus system snapshot s.connection) ≡ ok true))
  unfolding at_work
  unattended snapshot s (inl e) quiet = inl e
  unattended snapshot s (inr (inl e)) quiet = inr (inl e)
  unattended snapshot s (inr (inr (inl e))) quiet = inr (inr e)
  unattended snapshot s (inr (inr (inr (i, w)))) quiet =
      absurd (let no = sym w ∙ ap at_work (quiet i) in cc)

  -- Whatever calls any number of threads make, and in whatever order their accesses to the bus and
  -- the event descriptor alternate with those of the event loop, of enterEventLoop as of an sd-event
  -- loop: while the loop waits in poll(), with all calls returned and none of them by an exception,
  -- no message is in the queues, or the event descriptor is readable, so that poll() returns at once,
  -- or poll() was entered with poll data that know of messages in the queues. (Counting the messages
  -- does not fail.)
  pub take_turns_lem :
      (laws : EventFdLaws system) (ts : List (Turn system)) (at : LoopAt system)
      (c : Connection system) (snapshot : system.Bus)
      → (at ≡ processes) ⊎ (at ≡ dispatches)
      → (take_turns system ts (begin_with system at c)).loop ≡ polls snapshot
      → ((i : ℕ) → (take_turns system ts (begin_with system at c)).clients i ≡ idle)
      → let s = take_turns system ts (begin_with system at c) in
        (pending system s.connection ≡ ok false)
        ⊎ ((system.is_readable s.connection.event_fd ≡ true)
            ⊎ (pending system (set_bus system snapshot s.connection) ≡ ok true))
  take_turns_lem laws ts at c snapshot outside waits quiet =
      let s = take_turns system ts (begin_with system at c) in
      let at_first : AttendsAt system at (begin_with system at c) = elim outside [
        | inl e ↦ subst (λ l. AttendsAt system l (begin_with system at c)) (sym e) tt
        | inr e ↦ subst (λ l. AttendsAt system l (begin_with system at c)) (sym e) tt
      ] in
      let attends = take_turns-Attends laws ts (begin_with system at c) at_first in
      unattended snapshot s (subst (λ l. AttendsAt system l s) waits attends) quiet
