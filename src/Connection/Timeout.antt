-- ===== src/Connection/Timeout.antt =====
-- `IConnection::PollData` of src/Connection.cpp: from the point in time when libsystemd wants to be
-- called, in microseconds, to the milliseconds for poll(). The clock counts nanoseconds.
use sdbus_cpp.Prelude.{
  ℕ, ℤ, pos, negsuc, ◌+◌, ◌-◌, ◌*◌, ◌/◌, ◌%◌, ◌≤◌, ◌<◌, ◌≡◌, arith, ltb, ◌==◌, if◌then◌else◌,
}

-- std::chrono::microseconds::max()
abbrev pub max_timeout : ℕ
max_timeout = 9223372036854775807

-- The difference stops at zero, which is what std::max is for.
unfoldable pub get_relative_timeout : (timeout now : ℕ) → ℕ
get_relative_timeout timeout now =
    if timeout == 0
    then 0
    else if timeout == max_timeout
    then max_timeout
    else (timeout * 1000 - now) / 1000

-- static_cast<int>
unfoldable pub to_int : ℕ → ℤ
to_int n = let v = n % 4294967296 in if ltb v 2147483648 then pos v else negsuc (4294967295 - v)

unfoldable pub get_poll_timeout : (timeout now : ℕ) → ℤ
unfolding get_relative_timeout to_int
get_poll_timeout timeout now =
    let relative = get_relative_timeout timeout now in
    if relative == max_timeout then negsuc 0 else to_int ((relative + 999) / 1000)

-- A timeout that is not infinite and less than 2147483647000 microseconds ahead becomes a number of
-- milliseconds after which the point in time is reached up to a microsecond, and not passed by a
-- millisecond; a point in time that has passed becomes zero.
pub get_poll_timeout_lem :
    (timeout now : ℕ)
    → timeout < max_timeout
    → timeout * 1000 < now + 2147483647000000
    → (ms : ℕ) × (get_poll_timeout timeout now ≡ pos ms)
      × (timeout * 1000 < now + ms * 1000000 + 1000)
      × (now < timeout * 1000 → ms * 1000000 + now < timeout * 1000 + 1000000)
      × (timeout * 1000 ≤ now → ms ≡ 0)
unfolding get_poll_timeout get_relative_timeout to_int
get_poll_timeout_lem timeout now finite near =
    let d = timeout * 1000 - now in
    let ms = (d / 1000 + 999) / 1000 in
    let relative : get_relative_timeout timeout now ≡ d / 1000 = ground arith in
    (
      ms,
      rw (get_poll_timeout, relative) (ground arith),
      omega arith,
      (λ ahead. omega arith),
      λ passed. omega arith,
    )
