-- ===== src/UnixFd/Owned.antt =====
-- Every descriptor that objects hold is open, and held by one object only.
use sdbus_cpp.Prelude.{
  ℕ, ◌-◌, Option, none, some, some-cancel, ◌≡◌, subst, arith, get_elem?, ◌==◌, Option-cases,
  Bool-cases, inl, inr, if◌then◌else◌,
}
use sdbus_cpp.UnixFd.{
  Descriptors, Outcome, returned, thrown, holds, set_fd, checked_dup, close, close_and_own,
  add_object, on_object, construct, copy_from, move_from, reset_to, release, destruct, FdOperation,
  constructs, adopts, copies, moves, resets, reset_adopts, releases, destructs, do_operation,
}
use sdbus_cpp.UnixFd.Held.{
  held, IsOwned, held-set, holds-none, held-append, held-some, set_fd_other,
}

-- A function that was called on an object is called on one of the list.
called :
    (i : ℕ) (s : Descriptors) (f : Option ℕ → Outcome) (r : Outcome)
    → on_object i s f ≡ some r
    → (this : Option ℕ) × (get_elem? s.objects i ≡ some this) × (f this ≡ r)
called i s f r h = elim (Option-cases (get_elem? s.objects i)) [
  | inl e ↦ absurd (let no = rw (e, on_object) at h in cc)
  | inr (this, e) ↦ (this, e, some-cancel (rw (e, on_object) at h))
]

-- What the outcome says of ownership, if the function returned.
unfoldable KeepsOwned : Outcome → Type 0
KeepsOwned (returned t) = IsOwned t
KeepsOwned (thrown t) = Unit

add_object-IsOwned : (fd : Option ℕ) (s : Descriptors) → IsOwned s → IsOwned (add_object fd s)
unfolding add_object
add_object-IsOwned fd s v m = omega (arith, v m, held-append m s.objects fd)

close_and_own-IsOwned :
    (i : ℕ) (this fd : Option ℕ) (s : Descriptors)
    → get_elem? s.objects i ≡ some this
    → IsOwned s
    → IsOwned (close_and_own i this fd s)
unfolding close_and_own
close_and_own-IsOwned i this fd s e v m =
    omega (arith, v m, held-set m i fd this s.objects e, held-some m i this s.objects e)

given_away :
    (i : ℕ) (this : Option ℕ) (s : Descriptors)
    → get_elem? s.objects i ≡ some this
    → IsOwned s
    → (m : ℕ) → s.owned m - holds m this ≡ held m (set_fd i none s.objects)
given_away i this s e v m =
    omega
      (arith, v m, holds-none m, held-set m i none this s.objects e, held-some m i this s.objects e)

construct-Keeps :
    (fd answer : Option ℕ) (s : Descriptors) → IsOwned s → KeepsOwned (construct fd answer s)
unfolding construct KeepsOwned
construct-Keeps fd answer s v = elim (Option-cases (checked_dup fd answer)) [
  | inl e ↦ rw (e, construct, KeepsOwned) tt
  | inr (new, e) ↦ rw (e, construct, KeepsOwned) (add_object-IsOwned new s v)
]

copy_from-Keeps :
    (i : ℕ) (other answer this : Option ℕ) (s : Descriptors)
    → get_elem? s.objects i ≡ some this
    → IsOwned s
    → KeepsOwned (copy_from i other answer s this)
unfolding copy_from KeepsOwned
copy_from-Keeps i other answer this s here v = elim (Option-cases (checked_dup other answer)) [
  | inl e ↦ rw (e, copy_from, KeepsOwned) tt
  | inr (new, e) ↦ rw (e, copy_from, KeepsOwned) (close_and_own-IsOwned i this new s here v)
]

reset_to-Keeps :
    (i : ℕ) (fd answer this : Option ℕ) (s : Descriptors)
    → get_elem? s.objects i ≡ some this
    → IsOwned s
    → KeepsOwned (reset_to i fd answer s this)
unfolding reset_to KeepsOwned
reset_to-Keeps i fd answer this s here v = elim (Option-cases (checked_dup fd answer)) [
  | inl e ↦ rw (e, reset_to, KeepsOwned) tt
  | inr (new, e) ↦ rw (e, reset_to, KeepsOwned) (close_and_own-IsOwned i this new s here v)
]

move_from-Keeps :
    (i j : ℕ) (other this : Option ℕ) (s : Descriptors)
    → get_elem? s.objects i ≡ some this
    → get_elem? s.objects j ≡ some other
    → IsOwned s
    → KeepsOwned (move_from i j other s this)
unfolding move_from close KeepsOwned
move_from-Keeps i j other this s here there v m = omega (
  arith,
  v m,
  holds-none m,
  held-set m i other this s.objects here,
  held-set m j none other (set_fd i other s.objects)
      (set_fd_other i j this other s.objects here there),
  held-some m i this s.objects here,
)

-- On an object of the list, it is enough that the function keeps ownership there.
on_object-Keeps :
    (i : ℕ) (s : Descriptors) (f : Option ℕ → Outcome) (r : Outcome)
    → on_object i s f ≡ some r
    → ((this : Option ℕ) → get_elem? s.objects i ≡ some this → KeepsOwned (f this))
    → KeepsOwned r
on_object-Keeps i s f r h p =
    let (this, here, done) = called i s f r h in subst KeepsOwned done (p this here)

-- An assignment, which does nothing when the other object is this one.
assigned-Keeps :
    (i j : ℕ) (s : Descriptors) (f : Option ℕ → Option ℕ → Outcome) (r : Outcome)
    → (if i == j then some (returned s) else elim (get_elem? s.objects j) as (λ x. Option Outcome) [
      | none ↦ none
      | some other ↦ on_object i s (f other)
    ])
      ≡ some r
    → IsOwned s
    → ((other this : Option ℕ)
        → get_elem? s.objects i ≡ some this
        → get_elem? s.objects j ≡ some other
        → KeepsOwned (f other this))
    → KeepsOwned r
unfolding KeepsOwned
assigned-Keeps i j s f r h v p = elim (Bool-cases (i == j)) [
  | inl self ↦ subst KeepsOwned (some-cancel (rw self at h)) v
  | inr apart ↦ elim (Option-cases (get_elem? s.objects j)) [
    | inl e ↦ absurd (let no = rw (apart, e) at h in cc)
    | inr (other, e) ↦
        on_object-Keeps i s (f other) r (rw (apart, e) at h) (λ this here. p other this here e)
  ]
]

do_operation-Keeps :
    (o : FdOperation) (s : Descriptors) (r : Outcome)
    → do_operation o s ≡ some r
    → IsOwned s
    → KeepsOwned r
unfolding do_operation KeepsOwned release destruct close
do_operation-Keeps (constructs fd answer) s r h v =
    subst KeepsOwned (some-cancel h) (construct-Keeps fd answer s v)
do_operation-Keeps (adopts fd) s r h v =
    subst KeepsOwned (some-cancel h) (add_object-IsOwned fd s v)
do_operation-Keeps (copies i j answer) s r h v =
    assigned-Keeps i j s (λ other. copy_from i other answer s) r h v
      (λ other this here there. copy_from-Keeps i other answer this s here v)
do_operation-Keeps (moves i j) s r h v =
    assigned-Keeps i j s (λ other. move_from i j other s) r h v
      (λ other this here there. move_from-Keeps i j other this s here there v)
do_operation-Keeps (resets i fd answer) s r h v =
    on_object-Keeps i s (reset_to i fd answer s) r h
      (λ this here. reset_to-Keeps i fd answer this s here v)
do_operation-Keeps (reset_adopts i fd) s r h v =
    on_object-Keeps i s (λ this. returned (close_and_own i this fd s)) r h
      (λ this here. close_and_own-IsOwned i this fd s here v)
do_operation-Keeps (releases i) s r h v =
    on_object-Keeps i s (release i s) r h (λ this here. given_away i this s here v)
do_operation-Keeps (destructs i) s r h v =
    on_object-Keeps i s (destruct i s) r h (λ this here. given_away i this s here v)

-- Every function of UnixFd that returns keeps the objects' descriptors in order: for each number,
-- as many objects hold it as there are open descriptors with it that were not given away, so that
-- none is leaked and none is closed while another object holds it.
pub do_operation-IsOwned :
    (o : FdOperation) (s t : Descriptors)
    → do_operation o s ≡ some (returned t)
    → IsOwned s
    → IsOwned t
unfolding KeepsOwned
do_operation-IsOwned o s t h v = do_operation-Keeps o s (returned t) h v
