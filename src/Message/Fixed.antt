-- ===== src/Message/Fixed.antt =====
-- Deserialization into a destination of a fixed size: the operators `>>` for `std::array` and
-- `std::span`, and `deserializeArray` at them, of include/sdbus-c++/Message.h; `isAtEnd` of
-- src/Message.cpp. The destination is the list of its elements.
use sdbus_cpp.Prelude.{
  ℕ, is_pos, String, Bool, true, false, not, ltb, none, some, List, [], ◌∷◌, length, Result, ok,
  ◌>>=◌, throw_error_if, ◌>>◌,
}
use sdbus_cpp.Message.Types.{Ty, Container, Value, signature_of}
use sdbus_cpp.Message.Api.{SdBusMessage}
use sdbus_cpp.Message.Write.{contiguous_type}
use sdbus_cpp.Message.Reader.{Reader, read_array, from_payloads, enter, exit, clear_flags}

abbrev pub no_space : String
no_space = "Failed to deserialize array: not enough space in destination sequence"

abbrev pub einval : ℕ
einval = 22

-- The first values of the list replace the first elements of the destination.
unfoldable pub copy_n {ℓ} : {A : Type ℓ} → List A → List A → List A
copy_n [] ds = ds
copy_n (x ∷ xs) [] = []
copy_n (x ∷ xs) (d ∷ ds) = x ∷ copy_n xs ds

module _ (bus : SdBusMessage) where
  unfoldable pub is_at_end : bus.Msg → Bool
  is_at_end m = is_pos (bus.at_end m)

  -- `for (auto& elem : items) if (!(*this >> elem)) break;`
  unfoldable pub read_in_place {ℓ} :
      {A : Type ℓ}
      → (A → Reader bus → Result (A × Reader bus))
      → List A
      → Reader bus
      → Result (List A × Reader bus)
  read_in_place one [] s = ok ([], s)
  read_in_place one (d ∷ ds) s = one d s >>= λ (x, s'). elim s'.valid [
    | true ↦ read_in_place one ds s' >>= λ (ys, last). ok (x ∷ ys, last)
    | false ↦ ok (x ∷ ds, s')
  ]

  -- deserializeArraySlow(Array&)
  unfoldable pub fill_slow {ℓ} :
      {A : Type ℓ}
      → List ℕ
      → (A → Reader bus → Result (A × Reader bus))
      → List A
      → Reader bus
      → Result (List A × Reader bus)
  unfolding read_in_place enter exit clear_flags is_at_end
  fill_slow sig one ds s = enter bus Container.array sig s >>= λ inside. elim inside.valid [
    | true ↦ read_in_place one ds inside >>= λ (ys, after).
        throw_error_if (not (is_at_end after.msg)) no_space einval
        >> exit bus Container.array (clear_flags bus after)
        >>= λ left. ok (ys, left)
    | false ↦ ok (ds, inside)
  ]

  -- deserializeArray(Array&), its fast path being deserializeArrayFast(Array&).
  unfoldable pub fill_array :
      (t : Ty)
      → (Value t → Reader bus → Result (Value t × Reader bus))
      → List (Value t)
      → Reader bus
      → Result (List (Value t) × Reader bus)
  unfolding contiguous_type read_array from_payloads copy_n fill_slow
  fill_array t one ds s = elim (contiguous_type t) [
    | some b ↦ read_array bus b s >>= λ (ps, after).
        throw_error_if (ltb (length ds) (length (from_payloads t ps))) no_space einval
        >> ok (copy_n (from_payloads t ps) ds, after)
    | none ↦ fill_slow (signature_of t) one ds s
  ]
