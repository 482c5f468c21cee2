-- ===== src/Message/Counted.antt =====
-- The handles of src/Message.cpp own as many references to a message as there are handles to it.
use sdbus_cpp.Prelude.{
  some-cancel, ℕ, true, not, ◌&&◌, Option, none, some, [], ◌∷◌, ◌≡◌, ◌==◌, refl, arith, get_elem?,
  Option-cases, Bool-cases, inl, inr, subst,
}
use sdbus_cpp.Message.Handles.{
  Handles, mentions, has_msg, set_at, emptied, increment, decrement, copy_assign, move_assign, wrap,
  destroy, held, IsCounted, held-set, held-append, held-some, set_at_other,
}

mentions-none : (m : ℕ) → mentions m none ≡ 0
unfolding mentions
mentions-none m = refl

pub data HandleOperation : Type 0 where
  copies moves : ℕ → ℕ → HandleOperation
  wraps destroys : ℕ → HandleOperation

unfoldable pub operate : HandleOperation → Handles → Option Handles
unfolding copy_assign move_assign wrap destroy
operate (copies i j) s = copy_assign i j s
operate (moves i j) s = move_assign i j s
operate (wraps m) s = some (wrap m s)
operate (destroys i) s = destroy i s

wrap-IsCounted : (k : ℕ) (s : Handles) → IsCounted s → IsCounted (wrap k s)
unfolding wrap increment held
wrap-IsCounted k s v m = omega (
  arith,
  v m,
  held-append m s.handles (record { msg = some k; is_connected = true; is_ok = true } ∷ []),
)

destroy-IsCounted : (i : ℕ) (s t : Handles) → destroy i s ≡ some t → IsCounted s → IsCounted t
unfolding destroy decrement
destroy-IsCounted i s t h v = elim (Option-cases (get_elem? s.handles i)) [
  | inl e ↦ absurd (let no = rw (destroy, e) at h in cc)
  | inr (this, e) ↦ elim (Bool-cases (has_msg this.msg && not this.is_connected)) [
    | inl bad ↦ absurd (let no = rw (destroy, e, bad) at h in cc)
    | inr fine ↦
        let done = some-cancel (rw (destroy, e, fine) at h) in
        subst IsCounted done (λ m. omega (
          arith,
          v m,
          mentions-none m,
          held-set m i emptied this s.handles e,
          held-some m i this s.handles e,
        ))
  ]
]

move-IsCounted : (i j : ℕ) (s t : Handles) → move_assign i j s ≡ some t → IsCounted s → IsCounted t
unfolding move_assign decrement
move-IsCounted i j s t h v = elim (Option-cases (get_elem? s.handles i)) [
  | inl e ↦ absurd (let no = rw (move_assign, e) at h in cc)
  | inr (this, e) ↦ elim (Option-cases (get_elem? s.handles j)) [
    | inl f ↦ absurd (let no = rw (move_assign, e, f) at h in cc)
    | inr (other, f) ↦ elim (Bool-cases (has_msg this.msg && not this.is_connected)) [
      | inl bad ↦ absurd (let no = rw (move_assign, e, f, bad) at h in cc)
      | inr fine ↦
          let done = some-cancel (rw (move_assign, e, f, fine) at h) in
          subst IsCounted done (λ m. omega (
            arith,
            v m,
            mentions-none m,
            held-set m i other this s.handles e,
            held-set m j emptied other (set_at i other s.handles)
                (set_at_other i j this other s.handles e f),
            held-some m i this s.handles e,
          ))
    ]
  ]
]

copy-IsCounted : (i j : ℕ) (s t : Handles) → copy_assign i j s ≡ some t → IsCounted s → IsCounted t
unfolding copy_assign increment decrement
copy-IsCounted i j s t h v = elim (Bool-cases (i == j)) [
  | inl self ↦ subst IsCounted (some-cancel (rw (copy_assign, self) at h)) v
  | inr apart ↦ elim (Option-cases (get_elem? s.handles i)) [
    | inl e ↦ absurd (let no = rw (copy_assign, apart, e) at h in cc)
    | inr (this, e) ↦ elim (Option-cases (get_elem? s.handles j)) [
      | inl f ↦ absurd (let no = rw (copy_assign, apart, e, f) at h in cc)
      | inr (other, f) ↦ elim (Bool-cases (has_msg this.msg && not this.is_connected)) [
        | inl bad ↦ absurd (let no = rw (copy_assign, apart, e, f, bad) at h in cc)
        | inr fine ↦ elim (Bool-cases (not other.is_connected)) [
          | inl lost ↦ absurd (let no = rw (copy_assign, apart, e, f, fine, lost) at h in cc)
          | inr known ↦
              let done = some-cancel (rw (copy_assign, apart, e, f, fine, known) at h) in
              subst IsCounted done (λ m.
                omega
                  (arith, v m, held-set m i other this s.handles e, held-some m i this s.handles e))
        ]
      ]
    ]
  ]
]

-- Constructing, copying, moving and destroying messages keep the references to each message as many
-- as the handles to it, so that a message lives as long as its last handle; an assignment from the
-- handle itself is no exception.
pub operate-IsCounted :
    (o : HandleOperation) (s t : Handles) → operate o s ≡ some t → IsCounted s → IsCounted t
unfolding operate
operate-IsCounted (copies i j) s t h v = copy-IsCounted i j s t h v
operate-IsCounted (moves i j) s t h v = move-IsCounted i j s t h v
operate-IsCounted (wraps k) s t h v = subst IsCounted (some-cancel h) (wrap-IsCounted k s v)
operate-IsCounted (destroys i) s t h v = destroy-IsCounted i s t h v
