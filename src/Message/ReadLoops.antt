-- ===== src/Message/ReadLoops.antt =====
-- What the loops over the elements of a container make of the contents that were written, and what
-- the operator for variants does.
use sdbus_cpp.Prelude.{
  ℕ, zero, suc, ◌<◌, true, false, some, List, [], ◌∷◌, ◌++◌, Result, ok, ◌>>=◌, ◌≡◌, refl, sym, map,
  ap, ◌∙◌, append_assoc, append-nil, arith, length, All,
}
use sdbus_cpp.Message.Types.{
  BasicType, basic, Container, Token, opening, closing, Value, signature_of, is_contiguous,
}
use sdbus_cpp.Message.Api.{SdBusMessage, ReadLaws, split_item, prepend}
use sdbus_cpp.Message.Reader.{Reader, read_array, clear_flags}
use sdbus_cpp.Message.Read.{is_empty, read_variant, read_each, read_elements}
use sdbus_cpp.Message.Wire.{emit_each, emit_array, emit, items-emit_each}
use sdbus_cpp.Message.Write.{to_payload}
use sdbus_cpp.Message.ReadSound.{Reads, Ends, enter_item, enter_end, exit_end}

-- Inside a container, a search for its end passes over these tokens.
abbrev pub IsBalanced : List Token → Type 0
IsBalanced ts =
    (n : ℕ) (rest : List Token)
    → split_item (suc n) (ts ++ rest) ≡ prepend ts (split_item (suc n) rest)

-- The contents of a variant that holds a value: one complete item.
abbrev pub IsItem : List Token → Type 0
IsItem ts =
    (is_empty ts ≡ false)
    × ((rest : List Token) → split_item 0 (ts ++ rest) ≡ some (ts, rest))
    × IsBalanced ts

module _ (bus : SdBusMessage) (laws : ReadLaws bus) where
  -- An array that was written element by element is read in one step.
  pub read_array-Reads :
      (b : BasicType) (xs : List (Value (basic b)))
      → is_contiguous b ≡ true
      → Reads bus laws
          (emit_array (basic b) (emit (basic b)) xs)
          (read_array bus b)
          (map (to_payload b) xs)
  unfolding read_array signature_of
  read_array-Reads b xs fast s ts here valid =
      let wire = map (to_payload b) xs in
      let (r, ps, after, same) = laws.read_array_item b wire s.msg ts fast (
        here
        ∙ ap (λ ys. opening Container.array (signature_of (basic b)) ∷ ys)
            (append_assoc (emit_each (emit (basic b)) xs) (closing ∷ []) ts
              ∙ ap (λ ys. ys ++ closing ∷ ts) (sym (items-emit_each b xs)))) in
      (
        record { msg = (bus.read_array b s.msg).2; valid = true },
        rw (r, ps, valid),
        after,
        refl,
        same,
      )

  read_each-Reads {ℓ κ} :
      {A : Type ℓ} {P : A → Type κ} (emit_one : A → List Token)
      (one : A → Reader bus → Result (A × Reader bus)) (d : A)
      → ((x : A) → P x → Reads bus laws (emit_one x) (one d) x)
      → Ends bus laws (Unit {0}) (one d)
      → (xs acc : List A) (fuel : ℕ) (s : Reader bus) (cs : List Container) (ts : List Token)
      → length xs < fuel
      → All P xs
      → laws.containers s.msg ≡ Container.array ∷ cs
      → laws.rest s.msg ≡ emit_each emit_one xs ++ closing ∷ ts
      → s.valid ≡ true
      → (s' : Reader bus) × (read_each bus fuel one d acc s ≡ ok (acc ++ xs, s'))
        × (laws.rest s'.msg ≡ closing ∷ ts)
        × (laws.containers s'.msg ≡ Container.array ∷ cs)
  unfolding read_each
  read_each-Reads emit_one one d p q xs acc zero s cs ts h all inside here valid =
      absurd (omega arith)
  read_each-Reads emit_one one d p q [] acc (suc fuel) s cs ts h all inside here valid =
      let (x, s₁, e₁, stays, invalid, _, same) = q s (cs, ts, inside, here) in
      (s₁, simp (e₁, ◌>>=◌, invalid tt, append-nil), stays ∙ here, same ∙ inside)
  read_each-Reads emit_one one d p q (x ∷ xs) acc (suc fuel) s cs ts h all inside here valid =
      let (s₁, e₁, after₁, valid₁, same₁) =
        p x all.0 s (emit_each emit_one xs ++ closing ∷ ts)
          (here ∙ append_assoc (emit_one x) (emit_each emit_one xs) (closing ∷ ts)) valid in
      let (s₂, e₂, after₂, same₂) =
        read_each-Reads emit_one one d p q xs (acc ++ x ∷ []) fuel s₁ cs ts (omega arith) all.1
          (same₁ ∙ inside) after₁ valid₁ in
      (s₂, rw (e₁, ◌>>=◌, valid₁, e₂, append_assoc acc (x ∷ []) xs), after₂, same₂)

  pub read_elements-Reads {ℓ κ} :
      {A : Type ℓ} {P : A → Type κ} (fuel : ℕ) (sig : List ℕ) (emit_one : A → List Token)
      (one : A → Reader bus → Result (A × Reader bus)) (d : A)
      → ((x : A) → P x → Reads bus laws (emit_one x) (one d) x)
      → Ends bus laws (Unit {0}) (one d)
      → (xs : List A) → length xs < fuel
      → All P xs
      → Reads bus laws
          (opening Container.array sig ∷ (emit_each emit_one xs ++ closing ∷ []))
          (read_elements bus fuel sig one d [])
          xs
  unfolding read_elements clear_flags
  read_elements-Reads fuel sig emit_one one d p q xs h all s ts here valid =
      let (s₁, e₁, after₁, valid₁, same₁) =
        enter_item bus laws Container.array sig s ((emit_each emit_one xs ++ closing ∷ []) ++ ts)
          here valid in
      let (s₂, e₂, after₂, same₂) =
        read_each-Reads emit_one one d p q xs [] fuel s₁ (laws.containers s.msg) ts h all same₁
          (after₁ ∙ append_assoc (emit_each emit_one xs) (closing ∷ []) ts) valid₁ in
      let (s₃, e₃, after₃, valid₃, same₃) =
        exit_end bus laws Container.array Container.array (laws.containers s.msg)
          (clear_flags bus s₂) ts same₂ after₂ refl in
      (s₃, rw (e₁, ◌>>=◌, valid₁, e₂, ◌>>=◌, e₃), after₃, valid₃, same₃)

  pub read_elements-Ends {ℓ} :
      {A : Type ℓ} (fuel : ℕ) (sig : List ℕ) (one : A → Reader bus → Result (A × Reader bus))
      (d : A) (xs : List A)
      → Ends bus laws (Unit {0}) (read_elements bus fuel sig one d xs)
  unfolding read_elements
  read_elements-Ends fuel sig one d xs s h =
      let (s₁, e₁, stays, invalid, same) = enter_end bus laws Container.array sig s h in
      (xs, s₁, rw (e₁, ◌>>=◌, invalid), stays, (λ _. invalid), (λ _. invalid), same)

  pub read_variant-Reads :
      (ts : List Token) → IsItem ts → Reads bus laws ts (read_variant bus []) ts
  unfolding read_variant
  read_variant-Reads xs whole s ts here valid =
      let (r, copied, after, same) =
        laws.copy_item_item s.msg xs ts (ap (split_item 0) here ∙ whole.1 ts) in
      let sealed = laws.seal_copy_item xs (ap (split_item 0) (sym (append-nil xs)) ∙ whole.1 []) in
      (
        record { msg = (bus.copy_item [] s.msg).2; valid = true },
        rw (r, copied, sealed, whole.0, valid),
        after,
        refl,
        same,
      )

  pub read_variant-Ends : Ends bus laws (Unit {0}) (read_variant bus [])
  unfolding read_variant
  read_variant-Ends s (cs, ts, inside, here) =
      let (r, copied, after, same) = laws.copy_item_end s.msg cs ts inside here in
      (
        [],
        record { msg = (bus.copy_item [] s.msg).2; valid = false },
        rw (r, copied, laws.seal_copy_nil),
        after,
        λ _. refl,
        λ _. refl,
        same,
      )
