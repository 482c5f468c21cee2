-- ===== src/Message/ReadArrays.antt =====
-- Which values can be read back, and what deserialization makes of arrays.
use sdbus_cpp.Prelude.{
  ℕ, ◌<◌, true, false, none, List, [], ◌>>=◌, Bool-cases, Option-cases, ◌≡◌, refl, inl, inr, ◌⊎◌,
  length, All,
}
use sdbus_cpp.Message.Types.{
  BasicType, Ty, basic, variant, dict_entry, dictionary, unit, pair, Value, signature_of,
  is_contiguous, default_value,
}
use sdbus_cpp.Message.Api.{SdBusMessage, ReadLaws}
use sdbus_cpp.Message.Write.{contiguous_type}
use sdbus_cpp.Message.Reader.{from_payloads}
use sdbus_cpp.Message.Read.{deserialize_array, read}
use sdbus_cpp.Message.Wire.{emit_array, emit}
use sdbus_cpp.Message.ReadLoops.{IsItem, read_array-Reads, read_elements-Reads, read_elements-Ends}
use sdbus_cpp.Message.ReadSound.{Reads, Ends, from_payloads-to_payloads}

-- The type has a nonempty signature, so that its values leave a trace in a message.
abbrev pub IsSolid : Ty → Type 0
IsSolid unit = ⊥
IsSolid (pair t u) = IsSolid t ⊎ IsSolid u
IsSolid _ = Unit

-- The loops over the elements of the value end within the fuel, each variant in it holds a value,
-- and the elements of arrays and dictionaries are not empty tuples.
abbrev pub Readable : ℕ → (t : Ty) → Value t → Type 0
Readable fuel (basic b) x = Unit
Readable fuel variant ts = IsItem ts
Readable fuel (Ty.array t) xs = (length xs < fuel) × IsSolid t × All (Readable fuel t) xs
Readable fuel (dict_entry k v) (a, b) = Readable fuel k a × Readable fuel v b
Readable fuel (dictionary k v) es =
    (length es < fuel) × All (λ e. Readable fuel k e.0 × Readable fuel v e.1) es
Readable fuel (Ty.struct t) x = Readable fuel t x
Readable fuel unit x = Unit
Readable fuel (pair t u) (a, b) = Readable fuel t a × Readable fuel u b

module _ (bus : SdBusMessage) (laws : ReadLaws bus) where
  deserialize_array_slow :
      (t : Ty) (fuel : ℕ) (xs : List (Value t))
      → contiguous_type t ≡ none
      → ((x : Value t)
          → Readable fuel t x
          → Reads bus laws (emit t x) (read bus t fuel (default_value t)) x)
      → Ends bus laws (Unit {0}) (read bus t fuel (default_value t))
      → length xs < fuel
      → All (Readable fuel t) xs
      → Reads bus laws
          (emit_array t (emit t) xs)
          (deserialize_array bus t fuel (read bus t fuel) [])
          xs
  unfolding deserialize_array
  deserialize_array_slow t fuel xs slow p q h all s ts here valid =
      let (s', e, after, good, same) =
        read_elements-Reads bus laws fuel (signature_of t) (emit t) (read bus t fuel)
          (default_value t) p q xs h all s ts here valid in
      (s', rw (slow, deserialize_array) e, after, good, same)

  deserialize_array_fast :
      (b : BasicType) (fuel : ℕ) (xs : List (Value (basic b)))
      → is_contiguous b ≡ true
      → Reads bus laws
          (emit_array (basic b) (emit (basic b)) xs)
          (deserialize_array bus (basic b) fuel (read bus (basic b) fuel) [])
          xs
  unfolding deserialize_array signature_of
  deserialize_array_fast b fuel xs fast s ts here valid =
      let (s', e, after, good, same) = read_array-Reads bus laws b xs fast s ts here valid in
      (
        s',
        rw (fast, contiguous_type, deserialize_array, e, ◌>>=◌, from_payloads-to_payloads b xs),
        after,
        good,
        same,
      )

  pub deserialize_array-Reads :
      (t : Ty) (fuel : ℕ) (xs : List (Value t))
      → ((x : Value t)
          → Readable fuel t x
          → Reads bus laws (emit t x) (read bus t fuel (default_value t)) x)
      → Ends bus laws (Unit {0}) (read bus t fuel (default_value t))
      → length xs < fuel
      → All (Readable fuel t) xs
      → Reads bus laws
          (emit_array t (emit t) xs)
          (deserialize_array bus t fuel (read bus t fuel) [])
          xs
  unfolding contiguous_type
  deserialize_array-Reads (basic b) fuel xs p q h all = elim (Bool-cases (is_contiguous b)) [
    | inl fast ↦ deserialize_array_fast b fuel xs fast
    | inr slow ↦ deserialize_array_slow (basic b) fuel xs (rw (slow, contiguous_type)) p q h all
  ]
  deserialize_array-Reads t fuel xs p q h all = deserialize_array_slow t fuel xs refl p q h all

  pub deserialize_array-Ends :
      (t : Ty) (fuel : ℕ)
      → Ends bus laws (Unit {0}) (deserialize_array bus t fuel (read bus t fuel) [])
  unfolding deserialize_array
  deserialize_array-Ends t fuel s (cs, ts, inside, here) = elim (Option-cases (contiguous_type t)) [
    | inl slow ↦
        let (x, s', e, stays, ends, keeps, same) =
          read_elements-Ends bus laws fuel (signature_of t) (read bus t fuel) (default_value t) [] s
            (cs, ts, inside, here) in
        (x, s', rw (slow, deserialize_array) e, stays, ends, keeps, same)
    | inr (b, fast) ↦
        let (r, ps, after, same) = laws.read_array_end b s.msg cs ts inside here in
        (
          from_payloads t [],
          record { msg = (bus.read_array b s.msg).2; valid = false },
          rw (fast, deserialize_array, r, ps),
          after,
          λ _. refl,
          λ _. refl,
          same,
        )
  ]
