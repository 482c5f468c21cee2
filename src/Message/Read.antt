-- ===== src/Message/Read.antt =====
-- Deserialization of every type: the operators `>>` of include/sdbus-c++/Message.h, and
-- `Variant::deserializeFrom` of src/Types.cpp. The loops over the elements of a container run on
-- fuel.
use sdbus_cpp.Prelude.{
  ℕ, zero, suc, is_neg, errno_of, Bool, true, false, none, some, List, [], ◌∷◌, ◌++◌, Result, ok,
  throw, out_of_fuel, ◌>>=◌, throw_error_if, ◌>>◌, if◌then◌else◌,
}
use sdbus_cpp.Message.Types.{
  Ty, basic, variant, dict_entry, dictionary, unit, pair, Container, Token, Value, signature_of,
  default_value,
}
use sdbus_cpp.Message.Api.{SdBusMessage}
use sdbus_cpp.Message.Write.{contiguous_type}
use sdbus_cpp.Message.Reader.{
  Reader, read_basic, read_array, from_payloads, enter, exit, clear_flags,
}

-- Variant::isEmpty
abbrev pub is_empty : List Token → Bool
is_empty [] = true
is_empty (t ∷ ts) = false

module _ (bus : SdBusMessage) where
  -- `operator>>(Variant&)`: the next item is copied into the variant's message, and a variant that
  -- stays empty means that the end of an array was reached. Then the variant's message is sealed.
  unfoldable pub read_variant : List Token → Reader bus → Result (List Token × Reader bus)
  read_variant d s =
      let (r, ts, m) = bus.copy_item d s.msg in
      throw_error_if (is_neg r) "Failed to copy the message" (errno_of r)
      >> throw_error_if (is_neg (bus.seal_copy ts)) "Failed to seal the message"
          (errno_of (bus.seal_copy ts))
      >> ok (ts, record { msg = m; valid = if is_empty ts then false else s.valid })

  -- `while (true)`: read an element into a fresh object; keep it if the message is still valid, and
  -- stop otherwise.
  unfoldable pub read_each {ℓ} :
      {A : Type ℓ}
      → ℕ
      → (A → Reader bus → Result (A × Reader bus))
      → A
      → List A
      → Reader bus
      → Result (List A × Reader bus)
  read_each zero one d xs s = throw out_of_fuel
  read_each (suc fuel) one d xs s = one d s >>= λ (x, s'). elim s'.valid [
    | true ↦ read_each fuel one d (xs ++ x ∷ []) s'
    | false ↦ ok (xs, s')
  ]

  -- A container whose elements are read one by one; one that is not there is left alone.
  unfoldable pub read_elements {ℓ} :
      {A : Type ℓ}
      → ℕ
      → List ℕ
      → (A → Reader bus → Result (A × Reader bus))
      → A
      → List A
      → Reader bus
      → Result (List A × Reader bus)
  unfolding read_each enter exit clear_flags
  read_elements fuel sig one d xs s = enter bus Container.array sig s >>= λ inside.
      elim inside.valid [
        | true ↦ read_each fuel one d xs inside >>= λ (ys, after).
            exit bus Container.array (clear_flags bus after) >>= λ left. ok (ys, left)
        | false ↦ ok (xs, inside)
      ]

  -- deserializeArray: one step for contiguous arrays, element by element otherwise.
  unfoldable pub deserialize_array :
      (t : Ty)
      → ℕ
      → (Value t → Reader bus → Result (Value t × Reader bus))
      → List (Value t)
      → Reader bus
      → Result (List (Value t) × Reader bus)
  unfolding contiguous_type read_array from_payloads read_elements default_value
  deserialize_array t fuel one xs s = elim (contiguous_type t) [
    | some b ↦ read_array bus b s >>= λ (ps, after). ok (xs ++ from_payloads t ps, after)
    | none ↦ read_elements fuel (signature_of t) one (default_value t) xs s
  ]

  -- The body of a dictionary entry or of a struct, between entering and leaving it.
  unfoldable pub read_inside {ℓ} :
      {A : Type ℓ}
      → Container
      → List ℕ
      → (A → Reader bus → Result (A × Reader bus))
      → A
      → Reader bus
      → Result (A × Reader bus)
  unfolding enter exit
  read_inside c sig body d s = enter bus c sig s >>= λ inside. elim inside.valid [
    | true ↦ body d inside >>= λ (x, after). exit bus c after >>= λ left. ok (x, left)
    | false ↦ ok (d, inside)
  ]

  -- Two operators in a row.
  abbrev pub read_both {ℓ κ} :
      {A : Type ℓ} {B : Type κ}
      → (A → Reader bus → Result (A × Reader bus))
      → (B → Reader bus → Result (B × Reader bus))
      → A × B
      → Reader bus
      → Result ((A × B) × Reader bus)
  read_both first second (a, b) s =
      first a s >>= λ (x, s₁). second b s₁ >>= λ (y, s₂). ok ((x, y), s₂)

  -- The operator `>>` of each type.
  unfoldable pub read : (t : Ty) → ℕ → Value t → Reader bus → Result (Value t × Reader bus)
  unfolding read_basic read_variant deserialize_array read_elements read_inside default_value
  read (basic b) fuel d s = read_basic bus b d s
  read variant fuel d s = read_variant d s
  read (Ty.array t) fuel d s = deserialize_array t fuel (read t fuel) d s
  read (dict_entry k v) fuel d s =
      read_inside Container.dict_entry (signature_of k ++ signature_of v)
        (read_both (read k fuel) (read v fuel)) d s
  read (dictionary k v) fuel d s =
      read_elements fuel (signature_of (dict_entry k v))
        (read_inside Container.dict_entry (signature_of k ++ signature_of v)
          (read_both (read k fuel) (read v fuel)))
        (default_value k, default_value v) d s
  read (Ty.struct t) fuel d s = read_inside Container.struct (signature_of t) (read t fuel) d s
  read unit fuel d s = ok (d, s)
  read (pair t u) fuel d s = read_both (read t fuel) (read u fuel) d s
