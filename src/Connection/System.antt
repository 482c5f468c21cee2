-- ===== src/Connection/System.antt =====
-- What src/Connection.cpp uses of the system: event descriptors, poll() and libsystemd's functions on
-- the bus. Each function returns its result and the new state. A result is negative on failure; where
-- C returns -1 and sets errno, it is -errno here. (src/Connection.cpp passes some of these numbers to
-- createError with their sign, of which libsystemd takes no notice.)
use sdbus_cpp.Prelude.{ℕ, ℤ, is_neg, Bool, true, false, ◌≡◌}

pub record System : Type 1 where
  -- An event descriptor: eventfd_write, eventfd_read, and whether poll() reports it as readable.
  pub Fd : Type 0
  pub eventfd_write : Fd → ℤ × Fd
  pub eventfd_read : Fd → ℤ × Fd
  pub is_readable : Fd → Bool
  -- The bus: sd_bus_request_name, sd_bus_release_name, sd_bus_call, sd_bus_send, sd_bus_call_async
  -- and sd_bus_process, each with its other arguments given.
  pub Bus : Type 0
  pub request_name : Bus → ℤ × Bus
  pub release_name : Bus → ℤ × Bus
  pub call : Bus → ℤ × Bus
  pub send : Bus → ℤ × Bus
  pub call_async : Bus → ℤ × Bus
  pub process : Bus → ℤ × Bus
  -- sd_bus_get_n_queued: the sizes of the read and the write queue.
  pub get_n_queued : Bus → ℤ × (ℕ × ℕ)
  -- sd_bus_get_poll_data: the timeout.
  pub get_timeout : Bus → ℤ × ℕ
  -- poll() on the bus and two event descriptors: its result, and errno.
  pub poll : Bus → Fd → Fd → ℤ × ℕ

-- The documented behaviour of event descriptors: a descriptor that was written to is readable, one
-- that is readable can be read, and it is not readable afterwards.
pub record EventFdLaws (system : System) : Type 0 where
  pub write_readable :
      (f : system.Fd)
      → is_neg (system.eventfd_write f).0 ≡ false
      → system.is_readable (system.eventfd_write f).1 ≡ true
  pub read_ok :
      (f : system.Fd) → system.is_readable f ≡ true → is_neg (system.eventfd_read f).0 ≡ false
  pub read_clears :
      (f : system.Fd)
      → system.is_readable f ≡ true
      → system.is_readable (system.eventfd_read f).1 ≡ false
