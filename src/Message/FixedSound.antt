-- ===== src/Message/FixedSound.antt =====
-- What deserialization into a destination of a fixed size makes of an array that was written.
use sdbus_cpp.Prelude.{
  ℕ, ◌+◌, ◌<◌, true, ltb, none, Result, List, [], ◌∷◌, ◌++◌, ok, throw, errno_error, ◌>>=◌,
  Bool-cases, ◌≡◌, refl, ◌∙◌, inl, inr, ◌⊎◌, append_assoc, length, All, arith, tests,
}
use sdbus_cpp.Message.Types.{
  BasicType, Ty, basic, Container, Token, closing, Value, signature_of, default_value,
  is_contiguous,
}
use sdbus_cpp.Message.Api.{SdBusMessage, ReadLaws}
use sdbus_cpp.Message.Write.{contiguous_type}
use sdbus_cpp.Message.Reader.{Reader, clear_flags}
use sdbus_cpp.Message.Read.{read}
use sdbus_cpp.Message.Wire.{emit_each, emit_array, emit}
use sdbus_cpp.Message.ReadSound.{enter_item, exit_end, from_payloads-to_payloads}
use sdbus_cpp.Message.ReadLoops.{read_array-Reads}
use sdbus_cpp.Message.ReadArrays.{Readable, IsSolid}
use sdbus_cpp.Message.Fixed.{fill_slow, fill_array, no_space, einval}
use sdbus_cpp.Message.FixedLoops.{copy_n_lem, is_at_end_lem, read_in_place-emit}

module _ (bus : SdBusMessage) (laws : ReadLaws bus) (t : Ty) where
  -- What an operator makes of an array and a destination: all of the array, if it fits, at the
  -- destination's front, or the exception.
  abbrev pub Fills :
      (List (Value t) → Reader bus → Result (List (Value t) × Reader bus))
      → List (Value t)
      → List (Value t)
      → Reader bus
      → List Token
      → Type 0
  Fills f xs ds s ts =
      ((left : List (Value t)) × (s' : Reader bus) × (f ds s ≡ ok (xs ++ left, s'))
        × (length xs + length left ≡ length ds)
        × (laws.rest s'.msg ≡ ts)
        × (s'.valid ≡ true))
      ⊎ ((length ds < length xs) × (f ds s ≡ throw (errno_error einval no_space)))

module _ (bus : SdBusMessage) (laws : ReadLaws bus) (t : Ty) (fuel : ℕ) (solid : IsSolid t) where
  fill_slow-emit :
      (xs ds : List (Value t)) (s : Reader bus) (ts : List Token)
      → All (Readable fuel t) xs
      → All (λ d. d ≡ default_value t) ds
      → laws.rest s.msg ≡ emit_array t (emit t) xs ++ ts
      → s.valid ≡ true
      → Fills bus laws t (fill_slow bus (signature_of t) (read bus t fuel)) xs ds s ts
  unfolding fill_slow clear_flags
  fill_slow-emit xs ds s ts all ds_default here valid =
      let (s₁, e₁, after₁, valid₁, same₁) =
        enter_item bus laws Container.array (signature_of t) s
          ((emit_each (emit t) xs ++ closing ∷ []) ++ ts) here valid in
      let (ys, s₂, e₂, out) =
        read_in_place-emit bus laws t fuel solid xs ds s₁ (laws.containers s.msg) ts all ds_default
          same₁ (after₁ ∙ append_assoc (emit_each (emit t) xs) (closing ∷ []) ts) valid₁ in
      elim out [
        | inl (left, same, count, there, still) ↦
            let (s₃, e₃, after₃, valid₃, _) =
              exit_end bus laws Container.array Container.array (laws.containers s.msg)
                (clear_flags bus s₂) ts still there refl in
            inl (
              left,
              s₃,
              rw (
                e₁,
                ◌>>=◌,
                valid₁,
                e₂,
                ◌>>=◌,
                is_at_end_lem bus laws s₂.msg _ still,
                there,
                e₃,
                same,
              ),
              count,
              after₃,
              valid₃,
            )
        | inr (short, more, still) ↦
            inr (
              short,
              rw (e₁, ◌>>=◌, valid₁, e₂, ◌>>=◌, is_at_end_lem bus laws s₂.msg _ still, more),
            )
      ]

fill_fast-emit :
    (bus : SdBusMessage) (laws : ReadLaws bus) (b : BasicType) (fuel : ℕ)
    (xs ds : List (Value (basic b))) (s : Reader bus) (ts : List Token)
    → is_contiguous b ≡ true
    → laws.rest s.msg ≡ emit_array (basic b) (emit (basic b)) xs ++ ts
    → s.valid ≡ true
    → Fills bus laws (basic b) (fill_array bus (basic b) (read bus (basic b) fuel)) xs ds s ts
unfolding fill_array contiguous_type
fill_fast-emit bus laws b fuel xs ds s ts fast here valid =
    let (s', e, after, good, _) = read_array-Reads bus laws b xs fast s ts here valid in
    elim (Bool-cases (ltb (length ds) (length xs))) [
      | inl short ↦ inr (
        omega (tests, short),
        rw (fast, contiguous_type, fill_array, e, ◌>>=◌, from_payloads-to_payloads b xs, short),
      )
      | inr fits ↦
          let (left, same, count) = copy_n_lem xs ds (ground (arith, fits)) in
          inl (
            left,
            s',
            rw (
              fast,
              contiguous_type,
              fill_array,
              e,
              ◌>>=◌,
              from_payloads-to_payloads b xs,
              fits,
              same,
            ),
            count,
            after,
            good,
          )
    ]

fill_by_elements :
    (bus : SdBusMessage) (laws : ReadLaws bus) (t : Ty) (fuel : ℕ) (xs ds : List (Value t))
    (s : Reader bus) (ts : List Token)
    → contiguous_type t ≡ none
    → Readable fuel (Ty.array t) xs
    → All (λ d. d ≡ default_value t) ds
    → laws.rest s.msg ≡ emit_array t (emit t) xs ++ ts
    → s.valid ≡ true
    → Fills bus laws t (fill_array bus t (read bus t fuel)) xs ds s ts
unfolding fill_array
fill_by_elements bus laws t fuel xs ds s ts slow h ds_default here valid =
    rw (slow, fill_array) (fill_slow-emit bus laws t fuel h.1 xs ds s ts h.2 ds_default here valid)

-- Reading an array that was written into a `std::array` or `std::span` whose elements have their
-- default values: if it fits, then its elements are at the front of the destination, which keeps
-- its size, and the message stands behind the array and is still valid; if it does not, then the
-- exception for that is thrown, whichever way the elements are read. The elements are readable: the
-- loops have enough fuel, variants hold a value, and no array has elements without a signature.
pub fill_array-emit :
    (bus : SdBusMessage) (laws : ReadLaws bus) (t : Ty) (fuel : ℕ) (xs ds : List (Value t))
    (s : Reader bus) (ts : List Token)
    → Readable fuel (Ty.array t) xs
    → All (λ d. d ≡ default_value t) ds
    → laws.rest s.msg ≡ emit (Ty.array t) xs ++ ts
    → s.valid ≡ true
    → Fills bus laws t (fill_array bus t (read bus t fuel)) xs ds s ts
unfolding emit contiguous_type
fill_array-emit bus laws (basic b) fuel xs ds s ts h ds_default here valid =
    elim (Bool-cases (is_contiguous b)) [
      | inl fast ↦ fill_fast-emit bus laws b fuel xs ds s ts fast here valid
      | inr slow ↦
          fill_by_elements bus laws (basic b) fuel xs ds s ts (rw (slow, contiguous_type)) h
            ds_default here valid
    ]
fill_array-emit bus laws t fuel xs ds s ts h ds_default here valid =
    fill_by_elements bus laws t fuel xs ds s ts refl h ds_default here valid
