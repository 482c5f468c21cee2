-- ===== src/Message/Write.antt =====
-- Serialization: the operators `<<` of src/Message.cpp and include/sdbus-c++/Message.h, and
-- `Variant::serializeTo` of src/Types.cpp.
use sdbus_cpp.Prelude.{
  ℕ, ℤ, is_neg, errno_of, String, true, false, Option, none, some, List, [], ◌∷◌, ◌++◌, map, Result,
  ok, throw, errno_error, ◌>>=◌, throw_error_if, ◌>>◌,
}
use sdbus_cpp.Message.Types.{
  BasicType, boolean, byte, int16, uint16, int32, uint32, int64, uint64, double, string,
  object_path, signature_string, Ty, basic, variant, dict_entry, dictionary, unit, pair, Payload,
  num, text, Container, Token, Carrier, Value, signature_of, is_contiguous,
}
use sdbus_cpp.Message.Api.{SdBusMessage}

-- The wire form of a basic value: a `bool` goes out as the int 0 or 1.
unfoldable pub to_payload : (b : BasicType) → Carrier b → Payload
to_payload boolean true = num 1
to_payload boolean false = num 0
to_payload byte n = num n
to_payload int16 n = num n
to_payload uint16 n = num n
to_payload int32 n = num n
to_payload uint32 n = num n
to_payload int64 n = num n
to_payload uint64 n = num n
to_payload double n = num n
to_payload string s = text s
to_payload object_path s = text s
to_payload signature_string s = text s

-- The type of the elements of an array that goes out in one step.
unfoldable pub contiguous_type : Ty → Option BasicType
unfolding is_contiguous
contiguous_type (basic b) = elim (is_contiguous b) [ true ↦ some b | false ↦ none ]
contiguous_type _ = none

unfoldable pub to_payloads : (t : Ty) → List (Value t) → List Payload
unfolding to_payload
to_payloads (basic b) xs = map (to_payload b) xs
to_payloads _ xs = []

-- The text of the exception of each operator.
unfoldable pub write_failure : BasicType → String
write_failure boolean = "Failed to serialize a bool value"
write_failure byte = "Failed to serialize a byte value"
write_failure int16 = "Failed to serialize a int16_t value"
write_failure uint16 = "Failed to serialize a uint16_t value"
write_failure int32 = "Failed to serialize a int32_t value"
write_failure uint32 = "Failed to serialize a uint32_t value"
write_failure int64 = "Failed to serialize a int64_t value"
write_failure uint64 = "Failed to serialize a uint64_t value"
write_failure double = "Failed to serialize a double value"
write_failure string = "Failed to serialize a string value"
write_failure object_path = "Failed to serialize an ObjectPath value"
write_failure signature_string = "Failed to serialize a Signature value"

module _ (bus : SdBusMessage) where
  open bus use {Msg, append_basic, open_container, close_container, copy_all, rewind_all}

  -- SDBUS_THROW_ERROR_IF(r < 0, what, -r) after a call.
  abbrev pub checked : String → ℤ × Msg → Result Msg
  checked what (r, m) = throw_error_if (is_neg r) what (errno_of r) >> ok m

  unfoldable pub write_basic : (b : BasicType) → Carrier b → Msg → Result Msg
  unfolding to_payload write_failure
  write_basic b x m = checked (write_failure b) (append_basic b (to_payload b x) m)

  unfoldable pub append_array : BasicType → List Payload → Msg → Result Msg
  append_array b ps m = checked "Failed to serialize an array" (bus.append_array b ps m)

  -- openContainer, openDictEntry, openVariant and openStruct differ in the type they pass.
  unfoldable pub open_failure : Container → String
  open_failure Container.array = "Failed to open a container"
  open_failure Container.dict_entry = "Failed to open a dictionary entry"
  open_failure Container.variant = "Failed to open a variant"
  open_failure Container.struct = "Failed to open a struct"

  unfoldable pub close_failure : Container → String
  close_failure Container.array = "Failed to close a container"
  close_failure Container.dict_entry = "Failed to close a dictionary entry"
  close_failure Container.variant = "Failed to close a variant"
  close_failure Container.struct = "Failed to close a struct"

  unfoldable pub begin_container : Container → List ℕ → Msg → Result Msg
  unfolding open_failure
  begin_container c s m = checked (open_failure c) (open_container c s m)

  unfoldable pub end_container : Container → Msg → Result Msg
  unfolding close_failure
  end_container c m = checked (close_failure c) (close_container m)

  -- Variant::serializeTo: an empty variant is refused, any other is rewound and copied whole.
  unfoldable pub serialize_to : List Token → Msg → Result Msg
  serialize_to [] m = throw (errno_error 22 "Empty variant is not allowed")
  serialize_to (t ∷ ts) m =
      let r = rewind_all (t ∷ ts) in
      throw_error_if (is_neg r) "Failed to rewind the message" (errno_of r) >>= λ rewound.
      checked "Failed to copy the message" (copy_all (t ∷ ts) m)

  -- `for (const auto& item : items) *this << item;`
  unfoldable pub write_each {ℓ} : {A : Type ℓ} → (A → Msg → Result Msg) → List A → Msg → Result Msg
  write_each one [] m = ok m
  write_each one (x ∷ xs) m = one x m >>= write_each one xs

  -- serializeArray: one step for trivial types other than bool, element by element otherwise.
  unfoldable pub serialize_array :
      (t : Ty) → (Value t → Msg → Result Msg) → List (Value t) → Msg → Result Msg
  unfolding contiguous_type to_payloads append_array begin_container end_container write_each
  serialize_array t one xs m = elim (contiguous_type t) [
    | some b ↦ append_array b (to_payloads t xs) m
    | none ↦ do
      opened ← begin_container Container.array (signature_of t) m
      filled ← write_each one xs opened
      end_container Container.array filled
  ]

  -- A dictionary entry, given the operators of its key and its value.
  unfoldable pub write_entry :
      (k v : Ty)
      → (Value k → Msg → Result Msg)
      → (Value v → Msg → Result Msg)
      → Value k × Value v
      → Msg
      → Result Msg
  unfolding begin_container end_container
  write_entry k v key value (a, b) m = do
    opened ← begin_container Container.dict_entry (signature_of k ++ signature_of v) m
    first ← key a opened
    second ← value b first
    end_container Container.dict_entry second

  -- The operator `<<` of each type.
  unfoldable pub write : (t : Ty) → Value t → Msg → Result Msg
  unfolding write_basic serialize_to serialize_array begin_container end_container write_each
      write_entry
  write (basic b) x m = write_basic b x m
  write variant ts m = serialize_to ts m
  write (Ty.array t) xs m = serialize_array t (write t) xs m
  write (dict_entry k v) e m = write_entry k v (write k) (write v) e m
  write (dictionary k v) es m = do
    opened ← begin_container Container.array (signature_of (dict_entry k v)) m
    filled ← write_each (write_entry k v (write k) (write v)) es opened
    end_container Container.array filled
  write (Ty.struct t) x m = do
    opened ← begin_container Container.struct (signature_of t) m
    filled ← write t x opened
    end_container Container.struct filled
  write unit x m = ok m
  write (pair t u) (a, b) m = do first ← write t a m; write u b first
