-- ===== src/UnixFd.antt =====
-- `UnixFd` of include/sdbus-c++/Types.h and src/Types.cpp, an owned file descriptor: its
-- constructors, assignments, `reset`, `release` and the destructor. The objects of the program are a
-- list; a negative number in one is `none`.
use sdbus_cpp.Prelude.{
  ℕ, zero, suc, ◌+◌, ◌-◌, Option, none, some, List, [], ◌∷◌, ◌++◌, ◌==◌, get_elem?, if◌then◌else◌,
}
pub mod Held
pub mod Owned
mod Tests

pub record Descriptors : Type 0 where
  pub objects : List (Option ℕ)
  -- How many of the duplicated and adopted descriptors with a number are still open and not given
  -- away. A descriptor is adopted from a caller that owns it.
  pub owned : ℕ → ℕ

-- A function of the class returned, or an exception left it.
pub data Outcome : Type 0 where
  returned thrown : Descriptors → Outcome

unfoldable pub holds : ℕ → Option ℕ → ℕ
holds m none = 0
holds m (some k) = if k == m then 1 else 0

unfoldable pub set_fd : ℕ → Option ℕ → List (Option ℕ) → List (Option ℕ)
set_fd i fd [] = []
set_fd zero fd (x ∷ xs) = fd ∷ xs
set_fd (suc i) fd (x ∷ xs) = x ∷ set_fd i fd xs

-- checkedDup: the new descriptor, or none for an exception. `answer` is what `::dup` gives.
unfoldable pub checked_dup : Option ℕ → Option ℕ → Option (Option ℕ)
checked_dup none answer = some none
checked_dup (some fd) none = none
checked_dup (some fd) (some new) = some (some new)

-- `close()`, which leaves the number where it is.
unfoldable pub close : Option ℕ → Descriptors → Descriptors
unfolding holds
close this s = record s { owned = λ m. s.owned m - holds m this }

-- `close(); fd_ = fd;` with a descriptor that is owned from here on.
unfoldable pub close_and_own : ℕ → Option ℕ → Option ℕ → Descriptors → Descriptors
unfolding holds set_fd
close_and_own i this fd s = record {
  objects = set_fd i fd s.objects;
  owned = λ m. (s.owned m - holds m this) + holds m fd;
}

-- A new object.
unfoldable pub add_object : Option ℕ → Descriptors → Descriptors
unfolding holds
add_object fd s = record { objects = s.objects ++ fd ∷ []; owned = λ m. s.owned m + holds m fd }

-- What a function does that is called on an object of the list.
abbrev pub on_object : ℕ → Descriptors → (Option ℕ → Outcome) → Option Outcome
on_object i s f = elim (get_elem? s.objects i) [ none ↦ none | some this ↦ some (f this) ]

unfoldable pub construct : Option ℕ → Option ℕ → Descriptors → Outcome
unfolding checked_dup add_object
construct fd answer s = elim (checked_dup fd answer) [
  | some new ↦ returned (add_object new s)
  | none ↦ thrown s
]

-- The copy assignment from an object with this number in it.
unfoldable pub copy_from : ℕ → Option ℕ → Option ℕ → Descriptors → Option ℕ → Outcome
unfolding checked_dup close close_and_own
copy_from i other answer s this = elim (checked_dup other answer) [
  | some new ↦ returned (close_and_own i this new s)
  | none ↦ thrown (close this s)
]

-- `reset(fd)`: the temporary object is made first, and then moved from.
unfoldable pub reset_to : ℕ → Option ℕ → Option ℕ → Descriptors → Option ℕ → Outcome
unfolding checked_dup close_and_own
reset_to i fd answer s this = elim (checked_dup fd answer) [
  | some new ↦ returned (close_and_own i this new s)
  | none ↦ thrown s
]

-- The move assignment, from another object.
unfoldable pub move_from : ℕ → ℕ → Option ℕ → Descriptors → Option ℕ → Outcome
unfolding close set_fd
move_from i j other s this =
    let t = close this s in
    returned (record t { objects = set_fd j none (set_fd i other t.objects) })

-- `release`: the descriptor is the caller's.
unfoldable pub release : ℕ → Descriptors → Option ℕ → Outcome
unfolding holds set_fd
release i s this =
    returned (record { objects = set_fd i none s.objects; owned = λ m. s.owned m - holds m this })

-- The destructor; what is left is no object.
unfoldable pub destruct : ℕ → Descriptors → Option ℕ → Outcome
unfolding close set_fd
destruct i s this = returned (record (close this s) { objects = set_fd i none s.objects })

pub data FdOperation : Type 0 where
  constructs : (fd answer : Option ℕ) → FdOperation
  adopts : (fd : Option ℕ) → FdOperation
  copies : (i j : ℕ) → (answer : Option ℕ) → FdOperation
  moves : (i j : ℕ) → FdOperation
  resets : (i : ℕ) → (fd answer : Option ℕ) → FdOperation
  reset_adopts : (i : ℕ) → (fd : Option ℕ) → FdOperation
  releases destructs : (i : ℕ) → FdOperation

-- There is no result if there is no such object.
unfoldable pub do_operation : FdOperation → Descriptors → Option Outcome
unfolding construct add_object copy_from move_from reset_to close_and_own release destruct
do_operation (constructs fd answer) s = some (construct fd answer s)
do_operation (adopts fd) s = some (returned (add_object fd s))
do_operation (copies i j answer) s =
    if i == j then some (returned s) else elim (get_elem? s.objects j) [
      | none ↦ none
      | some other ↦ on_object i s (copy_from i other answer s)
    ]
do_operation (moves i j) s = if i == j then some (returned s) else elim (get_elem? s.objects j) [
  | none ↦ none
  | some other ↦ on_object i s (move_from i j other s)
]
do_operation (resets i fd answer) s = on_object i s (reset_to i fd answer s)
do_operation (reset_adopts i fd) s = on_object i s (λ this. returned (close_and_own i this fd s))
do_operation (releases i) s = on_object i s (release i s)
do_operation (destructs i) s = on_object i s (destruct i s)
