-- ===== src/Message/HandlesTests.antt =====
-- Two handles of messages.
use sdbus_cpp.Prelude.{some, none, Option, ◌+◌}
use sdbus_cpp.Message.Handles.{Handles, IsCounted, mentions, held}
use sdbus_cpp.Message.Counted.{operate, copies, operate-IsCounted}
use sdbus_cpp.Prelude.{true, false, [], ◌∷◌, ◌≡◌, refl}

-- Two handles; the first, of message 5, is made a copy of the second, of message 6.
abbrev two_handles : Handles
two_handles = record {
  handles =
      record { msg = some 5; is_connected = true; is_ok = true }
      ∷ record { msg = some 6; is_connected = true; is_ok = false }
      ∷ [];
  references = λ m. mentions m (some 5) + (mentions m (some 6) + 0);
}

abbrev handles_of : Option Handles → Handles
handles_of none = two_handles
handles_of (some s) = s

two_handles-IsCounted : IsCounted two_handles
unfolding held
two_handles-IsCounted m = refl

copied : operate (copies 0 1) two_handles ≡ some (handles_of (operate (copies 0 1) two_handles))
unfolding operate
copied = refl

operate-IsCounted_example : IsCounted (handles_of (operate (copies 0 1) two_handles))
operate-IsCounted_example =
    operate-IsCounted (copies 0 1) two_handles _ copied two_handles-IsCounted
