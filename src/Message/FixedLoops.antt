-- ===== src/Message/FixedLoops.antt =====
-- The steps of deserialization into a destination of a fixed size.
use sdbus_cpp.Prelude.{
  ℕ, ◌+◌, ◌≤◌, ◌<◌, true, false, List, [], ◌∷◌, ◌++◌, ok, ◌>>=◌, Bool-cases, ◌≡◌, refl, ap, ◌∙◌,
  inl, inr, ◌⊎◌, append_assoc, length, All, arith,
}
use sdbus_cpp.Message.Types.{Ty, Container, Token, closing, Value, default_value}
use sdbus_cpp.Message.Api.{SdBusMessage, ReadLaws, ends_here}
use sdbus_cpp.Message.Reader.{Reader}
use sdbus_cpp.Message.Read.{read}
use sdbus_cpp.Message.Wire.{emit_each, emit}
use sdbus_cpp.Message.ReadArrays.{Readable, IsSolid}
use sdbus_cpp.Message.RoundTrip.{read-Reads, read_at_end}
use sdbus_cpp.Message.Solid.{solid-continues}
use sdbus_cpp.Message.Fixed.{copy_n, is_at_end, read_in_place}

-- Values that fit replace as many elements of the destination.
pub copy_n_lem {ℓ} :
    {A : Type ℓ} (xs ds : List A)
    → length xs ≤ length ds
    → (left : List A) × (copy_n xs ds ≡ xs ++ left) × (length xs + length left ≡ length ds)
unfolding copy_n
copy_n_lem [] ds fits = (ds, refl, omega arith)
copy_n_lem (x ∷ xs) [] fits = absurd (omega (arith, fits))
copy_n_lem (x ∷ xs) (d ∷ ds) fits =
    let (left, same, count) = copy_n_lem xs ds (omega (arith, fits)) in
    (left, ap (λ zs. x ∷ zs) same, omega (arith, count))

pub is_at_end_lem :
    (bus : SdBusMessage) (laws : ReadLaws bus) (m : bus.Msg) (cs : List Container)
    → laws.containers m ≡ Container.array ∷ cs
    → is_at_end bus m ≡ ends_here (laws.rest m)
unfolding is_at_end
is_at_end_lem bus laws m cs inside = elim (Bool-cases (ends_here (laws.rest m))) [
  | inl e ↦ rw (laws.at_end_lem m cs inside, e)
  | inr e ↦ rw (laws.at_end_lem m cs inside, e)
]

module _ (bus : SdBusMessage) (laws : ReadLaws bus) (t : Ty) (fuel : ℕ) (solid : IsSolid t) where
  -- The loop over the destination stops at the container's end, or before an element that did not
  -- fit.
  pub read_in_place-emit :
      (xs ds : List (Value t)) (s : Reader bus) (cs : List Container) (ts : List Token)
      → All (Readable fuel t) xs
      → All (λ d. d ≡ default_value t) ds
      → laws.containers s.msg ≡ Container.array ∷ cs
      → laws.rest s.msg ≡ emit_each (emit t) xs ++ closing ∷ ts
      → s.valid ≡ true
      → (ys : List (Value t)) × (s' : Reader bus) × (read_in_place bus (read bus t fuel) ds s
          ≡ ok (ys, s'))
        × (((left : List (Value t)) × (ys ≡ xs ++ left)
              × (length xs + length left ≡ length ds)
              × (laws.rest s'.msg ≡ closing ∷ ts)
              × (laws.containers s'.msg ≡ Container.array ∷ cs))
            ⊎ ((length ds < length xs)
                × (ends_here (laws.rest s'.msg) ≡ false)
                × (laws.containers s'.msg ≡ Container.array ∷ cs)))
  unfolding read_in_place
  read_in_place-emit [] [] s cs ts all ds_default inside here valid =
      ([], s, refl, inl ([], refl, omega arith, here, inside))
  read_in_place-emit (x ∷ xs) [] s cs ts all ds_default inside here valid = (
    [],
    s,
    refl,
    inr (
      omega arith,
      rw (here, append_assoc (emit t x) (emit_each (emit t) xs) (closing ∷ ts))
          (solid-continues t fuel x _ solid all.0),
      inside,
    ),
  )
  read_in_place-emit [] (d ∷ ds) s cs ts all ds_default inside here valid =
      let (x, s₁, e, stays, invalid, same) =
        read_at_end bus laws t fuel s solid (cs, ts, inside, here) in
      (
        x ∷ ds,
        s₁,
        rw (ds_default.0, e, ◌>>=◌, invalid),
        inl (x ∷ ds, refl, omega arith, stays ∙ here, same ∙ inside),
      )
  read_in_place-emit (x ∷ xs) (d ∷ ds) s cs ts all ds_default inside here valid =
      let (s₁, e₁, after₁, valid₁, same₁) =
        read-Reads bus laws t fuel x all.0 s (emit_each (emit t) xs ++ closing ∷ ts)
          (here ∙ append_assoc (emit t x) (emit_each (emit t) xs) (closing ∷ ts)) valid in
      let (ys, s₂, e₂, out) =
        read_in_place-emit xs ds s₁ cs ts all.1 ds_default.1 (same₁ ∙ inside) after₁ valid₁ in
      (
        x ∷ ys,
        s₂,
        rw (ds_default.0, e₁, ◌>>=◌, valid₁, e₂, ◌>>=◌),
        elim out [
          | inl (left, same, count, there, still) ↦
              inl (left, ap (λ zs. x ∷ zs) same, omega (arith, count), there, still)
          | inr (short, more, still) ↦ inr (omega (arith, short), more, still)
        ],
      )
