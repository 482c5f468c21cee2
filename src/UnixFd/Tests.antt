-- ===== src/UnixFd/Tests.antt =====
-- Two objects with the descriptors 3 and 4.
use sdbus_cpp.Prelude.{◌+◌, Option, none, some, [], ◌∷◌, ◌≡◌, refl}
use sdbus_cpp.UnixFd.{
  Descriptors, Outcome, returned, thrown, holds, checked_dup, close, copies, do_operation,
}
use sdbus_cpp.UnixFd.Held.{held, IsOwned}
use sdbus_cpp.UnixFd.Owned.{do_operation-IsOwned}

abbrev two_objects : Descriptors
two_objects = record {
  objects = some 3 ∷ some 4 ∷ [];
  owned = λ m. holds m (some 3) + (holds m (some 4) + 0);
}

two_objects-IsOwned : IsOwned two_objects
unfolding held
two_objects-IsOwned m = refl

abbrev state_of : Option Outcome → Descriptors
state_of none = two_objects
state_of (some (returned s)) = s
state_of (some (thrown s)) = s

-- The first is assigned from the second, whose descriptor is duplicated as 5.
assigned :
    do_operation (copies 0 1 (some 5)) two_objects
    ≡ some (returned (state_of (do_operation (copies 0 1 (some 5)) two_objects)))
unfolding do_operation checked_dup
assigned = refl

do_operation-IsOwned_example : IsOwned (state_of (do_operation (copies 0 1 (some 5)) two_objects))
do_operation-IsOwned_example =
    do_operation-IsOwned (copies 0 1 (some 5)) two_objects _ assigned two_objects-IsOwned

-- When the descriptor cannot be duplicated, the first keeps the one that it has closed.
abbrev failed_assignment : Descriptors
failed_assignment = state_of (do_operation (copies 0 1 none) two_objects)

still_held : (failed_assignment.owned 3 ≡ 0) × (held 3 failed_assignment.objects ≡ 1)
unfolding do_operation checked_dup close holds held
still_held = (refl, refl)
