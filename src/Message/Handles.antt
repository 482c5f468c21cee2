-- ===== src/Message/Handles.antt =====
-- The reference counts of src/Message.cpp: constructors, assignments and the destructor of `Message`.
-- The handles are the `Message` objects of the program; a message is a number.
use sdbus_cpp.Prelude.{
  ℕ, zero, suc, ◌+◌, ◌-◌, ◌≤◌, Bool, true, false, not, ◌&&◌, Option, none, some, List, [], ◌∷◌,
  ◌++◌, ◌≡◌, ◌==◌, refl, ap, arith, get_elem?, if◌then◌else◌,
}

pub record Handle : Type 0 where
  pub msg : Option ℕ
  -- Whether `connection_` is set.
  pub is_connected : Bool
  pub is_ok : Bool

pub record Handles : Type 0 where
  pub handles : List Handle
  -- libsystemd's count of the references to each message that the handles own.
  pub references : ℕ → ℕ

-- One if it is that message.
unfoldable pub mentions : ℕ → Option ℕ → ℕ
mentions m none = 0
mentions m (some k) = if k == m then 1 else 0

unfoldable pub has_msg : Option ℕ → Bool
has_msg none = false
has_msg (some m) = true

unfoldable pub set_at : ℕ → Handle → List Handle → List Handle
set_at i h [] = []
set_at zero h (x ∷ xs) = h ∷ xs
set_at (suc i) h (x ∷ xs) = x ∷ set_at i h xs

-- A handle that was moved from.
abbrev pub emptied : Handle
emptied = record { msg = none; is_connected = false; is_ok = true }

-- incrementMessageRefCount and decrementMessageRefCount; libsystemd ignores null messages.
unfoldable pub increment : Option ℕ → (ℕ → ℕ) → ℕ → ℕ
increment o refs m = refs m + mentions m o

unfoldable pub decrement : Option ℕ → (ℕ → ℕ) → ℕ → ℕ
decrement o refs m = refs m - mentions m o

-- `none` is a call through a null `connection_`.
unfoldable pub copy_assign : ℕ → ℕ → Handles → Option Handles
unfolding set_at increment decrement has_msg
copy_assign i j s = if i == j then some s else elim (get_elem? s.handles i) [
  | none ↦ none
  | some this ↦ (elim (get_elem? s.handles j) [
    | none ↦ none
    | some other ↦
        if has_msg this.msg && not this.is_connected
        then none
        else if not other.is_connected
        then none
        else some (record {
          handles = set_at i other s.handles;
          references = increment other.msg (decrement this.msg s.references);
        })
  ])
]

-- The other handle may be this one.
unfoldable pub move_assign : ℕ → ℕ → Handles → Option Handles
unfolding set_at decrement has_msg
move_assign i j s = elim (get_elem? s.handles i) [
  | none ↦ none
  | some this ↦ (elim (get_elem? s.handles j) [
    | none ↦ none
    | some other ↦
        if has_msg this.msg && not this.is_connected
        then none
        else some (record {
          handles = set_at j emptied (set_at i other s.handles);
          references = decrement this.msg s.references;
        })
  ])
]

-- The constructor from a message of libsystemd that is not adopted.
unfoldable pub wrap : ℕ → Handles → Handles
unfolding increment
wrap m s = record {
  handles = s.handles ++ record { msg = some m; is_connected = true; is_ok = true } ∷ [];
  references = increment (some m) s.references;
}

-- The destructor; what is left is no handle.
unfoldable pub destroy : ℕ → Handles → Option Handles
unfolding set_at decrement has_msg
destroy i s = elim (get_elem? s.handles i) [
  | none ↦ none
  | some this ↦
      if has_msg this.msg && not this.is_connected
      then none
      else some (record {
        handles = set_at i emptied s.handles;
        references = decrement this.msg s.references;
      })
]

unfoldable pub held : ℕ → List Handle → ℕ
held m [] = 0
held m (h ∷ hs) = mentions m h.msg + held m hs

-- Each message has as many references as there are handles to it.
abbrev pub IsCounted : Handles → Type 0
IsCounted s = (m : ℕ) → s.references m ≡ held m s.handles

pub held-set :
    (m i : ℕ) (h old : Handle) (hs : List Handle)
    → get_elem? hs i ≡ some old
    → held m (set_at i h hs) + mentions m old.msg ≡ held m hs + mentions m h.msg
unfolding held set_at
held-set m i h old [] e = cc
held-set m zero h old (x ∷ xs) e =
    let same : mentions m x.msg ≡ mentions m old.msg =
      ap (λ (y : Option Handle). elim y [ none ↦ 0 | some z ↦ mentions m z.msg ]) e in
    omega (arith, same)
held-set m (suc i) h old (x ∷ xs) e = omega (arith, held-set m i h old xs e)

pub held-append : (m : ℕ) (xs ys : List Handle) → held m (xs ++ ys) ≡ held m xs + held m ys
unfolding held
held-append m [] ys = omega arith
held-append m (x ∷ xs) ys = omega (arith, held-append m xs ys)

pub held-some :
    (m i : ℕ) (h : Handle) (hs : List Handle)
    → get_elem? hs i ≡ some h
    → mentions m h.msg ≤ held m hs
unfolding mentions held
held-some m i h hs e = omega (arith, held-set m i emptied h hs e)

pub set_at_other :
    (i j : ℕ) (old x : Handle) (hs : List Handle)
    → get_elem? hs i ≡ some old
    → get_elem? hs j ≡ some x
    → get_elem? (set_at i x hs) j ≡ some x
unfolding set_at
set_at_other i j old x [] e f = cc
set_at_other zero zero old x (y ∷ ys) e f = refl
set_at_other zero (suc j) old x (y ∷ ys) e f = f
set_at_other (suc i) zero old x (y ∷ ys) e f = f
set_at_other (suc i) (suc j) old x (y ∷ ys) e f = set_at_other i j old x ys e f
