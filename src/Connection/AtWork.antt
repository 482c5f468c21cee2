-- ===== src/Connection/AtWork.antt =====
-- A call keeps the event loop from waiting in poll() for messages in the queues.
use sdbus_cpp.Prelude.{
  ℕ, ℤ, is_neg, Bool, true, false, Result, ok, throw, ◌==◌, ◌≡◌, refl, sym, subst, ap, ◌∙◌, ◌⊎◌,
  inl, inr, Bool-cases, ==_iff, arith, if◌then◌else◌,
}
use sdbus_cpp.Connection.System.{System, EventFdLaws}
use sdbus_cpp.Connection.Wake.{Connection, are_pending_messages_in_queues}
use sdbus_cpp.Connection.Threads.{
  Call, requests_name, releases_name, calls_method, sends_message, calls_async, Client, idle,
  called, counted, thrown, timed, awaited, LoopAt, polls, Threads, set_client, set_bus, after_call,
  begin_call, compare_timeouts, count_messages, notify, client_step,
}

-- The thread has changed the bus and not yet seen to the loop, or an exception kept it from that.
unfoldable pub at_work : Client → Bool
at_work idle = false
at_work (timed before) = false
at_work _ = true

module _ (system : System) where
  abbrev pub pending : Connection system → Result Bool
  pending = are_pending_messages_in_queues system

  -- No message is in the queues, or poll() returns at once, or it knows of messages in the queues, or
  -- a thread is at work.
  abbrev pub Covered : system.Bus → Threads system → Type 0
  Covered snapshot s =
      (pending s.connection ≡ ok false)
      ⊎ ((system.is_readable s.connection.event_fd ≡ true)
          ⊎ ((pending (set_bus system snapshot s.connection) ≡ ok true)
              ⊎ ((i : ℕ) × (at_work (s.clients i) ≡ true))))

  abbrev pub AttendsAt : LoopAt system → Threads system → Type 0
  AttendsAt (polls snapshot) s = Covered snapshot s
  AttendsAt _ s = Unit

  abbrev pub Attends : Threads system → Type 0
  Attends s = AttendsAt s.loop s

  pub if-AttendsAt :
      (b : Bool) (x y : LoopAt system) (s : Threads system)
      → AttendsAt x s
      → AttendsAt y s
      → AttendsAt (if b then x else y) s
  if-AttendsAt true x y s p q = p
  if-AttendsAt false x y s p q = q

  AttendsAt-map :
      (at : LoopAt system) (s t : Threads system)
      → ((snapshot : system.Bus) → Covered snapshot s → Covered snapshot t)
      → AttendsAt at s
      → AttendsAt at t
  AttendsAt-map (polls snapshot) s t f p = f snapshot p
  AttendsAt-map _ s t f p = tt

  set_client-here :
      (i : ℕ) (p : Client) (s : Threads system) → (set_client system i p s).clients i ≡ p
  unfolding set_client
  set_client-here i p s = ground arith

  -- A thread that is at work now.
  works :
      (i : ℕ) (p : Client) (s : Threads system) (snapshot : system.Bus)
      → at_work p ≡ true
      → Covered snapshot (set_client system i p s)
  works i p s snapshot h = inr (inr (inr (i, ap at_work (set_client-here i p s) ∙ h)))

  -- A thread that was not at work does not matter.
  rests :
      (i : ℕ) (p : Client) (s : Threads system) (snapshot : system.Bus)
      → at_work (s.clients i) ≡ false
      → Covered snapshot s
      → Covered snapshot (set_client system i p s)
  unfolding set_client
  rests i p s snapshot quiet (inl e) = inl e
  rests i p s snapshot quiet (inr (inl e)) = inr (inl e)
  rests i p s snapshot quiet (inr (inr (inl e))) = inr (inr (inl e))
  rests i p s snapshot quiet (inr (inr (inr (j, w)))) = elim (Bool-cases (i == j)) [
    | inl same ↦ let e = (==_iff i j).0 same in cc
    | inr other ↦ inr (inr (inr (j, rw other w)))
  ]

  after_call-Covered :
      (throws : Bool) (r : ℤ × system.Bus) (i : ℕ) (next : Client) (s : Threads system)
      (snapshot : system.Bus)
      → at_work next ≡ true
      → Covered snapshot (after_call system throws r i next s)
  unfolding after_call at_work
  after_call-Covered throws (r, bus) i next s snapshot h =
      works i _ (record s { connection = set_bus system bus s.connection }) snapshot
        (ground (arith, h))

  compare_timeouts-at_work : (before : ℕ) (r : ℤ × ℕ) → at_work (compare_timeouts before r) ≡ true
  unfolding compare_timeouts at_work
  compare_timeouts-at_work before (r, after) = ground arith

  count-Covered :
      (r : Result Bool) (i : ℕ) (s : Threads system) (snapshot : system.Bus)
      → pending s.connection ≡ r
      → Covered snapshot (set_client system i (count_messages r) s)
  unfolding count_messages set_client at_work
  count-Covered (ok false) i s snapshot e = inl e
  count-Covered (ok true) i s snapshot e = works i counted s snapshot refl
  count-Covered (throw x) i s snapshot e = works i thrown s snapshot refl

  notify-Covered :
      (laws : EventFdLaws system) (i : ℕ) (s : Threads system) (snapshot : system.Bus)
      → Covered snapshot (notify system i s)
  unfolding notify set_client at_work
  notify-Covered laws i s snapshot =
      elim (Bool-cases (is_neg (system.eventfd_write s.connection.event_fd).0)) [
        | inl e ↦
            let c = record s.connection {
              event_fd = (system.eventfd_write s.connection.event_fd).1;
            } in
            rw (notify, e) (works i thrown (record s { connection = c }) snapshot refl)
        | inr e ↦ inr (inl (laws.write_readable s.connection.event_fd e))
      ]

  begin_call-Covered :
      (call : Call) (i : ℕ) (s : Threads system) (snapshot : system.Bus)
      → at_work (s.clients i) ≡ false
      → Covered snapshot s
      → Covered snapshot (begin_call system call i s)
  unfolding begin_call at_work
  begin_call-Covered requests_name i s snapshot quiet h =
      after_call-Covered true (system.request_name s.connection.bus) i called s snapshot refl
  begin_call-Covered releases_name i s snapshot quiet h =
      after_call-Covered true (system.release_name s.connection.bus) i called s snapshot refl
  begin_call-Covered calls_method i s snapshot quiet h =
      after_call-Covered true (system.call s.connection.bus) i called s snapshot refl
  begin_call-Covered sends_message i s snapshot quiet h =
      after_call-Covered false (system.send s.connection.bus) i called s snapshot refl
  begin_call-Covered calls_async i s snapshot quiet h = rests i _ s snapshot quiet h

  client_step-Covered :
      (laws : EventFdLaws system) (call : Call) (i : ℕ) (p : Client) (s : Threads system)
      (snapshot : system.Bus)
      → s.clients i ≡ p
      → Covered snapshot s
      → Covered snapshot (client_step system call i s)
  unfolding client_step at_work
  client_step-Covered laws call i idle s snapshot e h =
      rw (e, client_step) (begin_call-Covered call i s snapshot (ap at_work e) h)
  client_step-Covered laws call i called s snapshot e h =
      rw (e, client_step) (count-Covered (pending s.connection) i s snapshot refl)
  client_step-Covered laws call i counted s snapshot e h =
      rw (e, client_step) (notify-Covered laws i s snapshot)
  client_step-Covered laws call i thrown s snapshot e h = rw (e, client_step) h
  client_step-Covered laws call i (timed before) s snapshot e h =
      rw (e, client_step)
        (after_call-Covered true (system.call_async s.connection.bus) i (awaited before) s snapshot
          refl)
  client_step-Covered laws call i (awaited before) s snapshot e h =
      rw (e, client_step)
        (works i (compare_timeouts before (system.get_timeout s.connection.bus)) s snapshot
          (compare_timeouts-at_work before (system.get_timeout s.connection.bus)))

  begin_call-loop :
      (call : Call) (i : ℕ) (s : Threads system) → (begin_call system call i s).loop ≡ s.loop
  unfolding begin_call after_call set_client
  begin_call-loop requests_name i s = refl
  begin_call-loop releases_name i s = refl
  begin_call-loop calls_method i s = refl
  begin_call-loop sends_message i s = refl
  begin_call-loop calls_async i s = refl

  client_step-loop :
      (call : Call) (i : ℕ) (p : Client) (s : Threads system)
      → s.clients i ≡ p
      → (client_step system call i s).loop ≡ s.loop
  unfolding client_step after_call set_client notify
  client_step-loop call i idle s e = rw (e, client_step) (begin_call-loop call i s)
  client_step-loop call i called s e = rw (e, client_step) refl
  client_step-loop call i counted s e = rw (e, client_step) refl
  client_step-loop call i thrown s e = rw (e, client_step) refl
  client_step-loop call i (timed before) s e = rw (e, client_step) refl
  client_step-loop call i (awaited before) s e = rw (e, client_step) refl

  pub client_step-Attends :
      (laws : EventFdLaws system) (call : Call) (i : ℕ) (s : Threads system)
      → Attends s
      → Attends (client_step system call i s)
  client_step-Attends laws call i s h =
      let t = client_step system call i s in
      subst (λ at. AttendsAt at t) (sym (client_step-loop call i (s.clients i) s refl))
        (AttendsAt-map s.loop s t
          (λ snapshot. client_step-Covered laws call i (s.clients i) s snapshot refl) h)
