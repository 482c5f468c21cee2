-- ===== src/UnixFd/Held.antt =====
-- How many of the objects hold a descriptor.
use sdbus_cpp.Prelude.{
  ℕ, zero, suc, ◌+◌, ◌≤◌, Option, none, some, List, [], ◌∷◌, ◌++◌, ◌≡◌, refl, ap, arith, get_elem?,
}
use sdbus_cpp.UnixFd.{Descriptors, holds, set_fd}

unfoldable pub held : ℕ → List (Option ℕ) → ℕ
unfolding holds
held m [] = 0
held m (x ∷ xs) = holds m x + held m xs

-- The objects hold what is owned, no more and no less.
abbrev pub IsOwned : Descriptors → Type 0
IsOwned s = (m : ℕ) → s.owned m ≡ held m s.objects

pub held-set :
    (m i : ℕ) (new old : Option ℕ) (xs : List (Option ℕ))
    → get_elem? xs i ≡ some old
    → held m (set_fd i new xs) + holds m old ≡ held m xs + holds m new
unfolding held set_fd
held-set m i new old [] e = cc
held-set m zero new old (x ∷ xs) e =
    let same : holds m x ≡ holds m old =
      ap (λ (y : Option (Option ℕ)). elim y [ none ↦ 0 | some z ↦ holds m z ]) e in
    omega (arith, same)
held-set m (suc i) new old (x ∷ xs) e = omega (arith, held-set m i new old xs e)

pub holds-none : (m : ℕ) → holds m none ≡ 0
unfolding holds
holds-none m = refl

pub held-append :
    (m : ℕ) (xs : List (Option ℕ)) (fd : Option ℕ) → held m (xs ++ fd ∷ []) ≡ held m xs + holds m fd
unfolding held
held-append m [] fd = omega arith
held-append m (x ∷ xs) fd = omega (arith, held-append m xs fd)

pub held-some :
    (m i : ℕ) (fd : Option ℕ) (xs : List (Option ℕ))
    → get_elem? xs i ≡ some fd
    → holds m fd ≤ held m xs
held-some m i fd xs e = omega (arith, held-set m i none fd xs e, holds-none m)

pub set_fd_other :
    (i j : ℕ) (old x : Option ℕ) (xs : List (Option ℕ))
    → get_elem? xs i ≡ some old
    → get_elem? xs j ≡ some x
    → get_elem? (set_fd i x xs) j ≡ some x
unfolding set_fd
set_fd_other i j old x [] e f = cc
set_fd_other zero zero old x (y ∷ ys) e f = refl
set_fd_other zero (suc j) old x (y ∷ ys) e f = f
set_fd_other (suc i) zero old x (y ∷ ys) e f = f
set_fd_other (suc i) (suc j) old x (y ∷ ys) e f = set_fd_other i j old x ys e f
