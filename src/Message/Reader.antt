-- ===== src/Message/Reader.antt =====
-- The steps of deserialization: the operators `>>` for basic types, and entering and leaving
-- containers, of src/Message.cpp. An operator takes the destination's value and returns the new one.
use sdbus_cpp.Prelude.{
  ℕ, zero, suc, ℤ, is_neg, is_zero, errno_of, String, Bool, true, false, Option, some, List, [],
  map, Result, ok, throw, errno_error, ◌>>=◌, throw_error_if, ◌>>◌, if◌then◌else◌,
}
use sdbus_cpp.Message.Types.{
  BasicType, boolean, byte, int16, uint16, int32, uint32, int64, uint64, double, string,
  object_path, signature_string, Ty, basic, Payload, num, text, Container, Carrier, Value,
  default_value,
}
use sdbus_cpp.Message.Api.{SdBusMessage}

-- What a destination holds after a payload was stored, or none was. A `bool` is read through an int
-- that starts as 0.
unfoldable pub from_payload : (b : BasicType) → Carrier b → Option Payload → Carrier b
from_payload boolean d (some (num zero)) = false
from_payload boolean d (some (num (suc n))) = true
from_payload boolean d _ = false
from_payload byte d (some (num n)) = n
from_payload byte d _ = d
from_payload int16 d (some (num n)) = n
from_payload int16 d _ = d
from_payload uint16 d (some (num n)) = n
from_payload uint16 d _ = d
from_payload int32 d (some (num n)) = n
from_payload int32 d _ = d
from_payload uint32 d (some (num n)) = n
from_payload uint32 d _ = d
from_payload int64 d (some (num n)) = n
from_payload int64 d _ = d
from_payload uint64 d (some (num n)) = n
from_payload uint64 d _ = d
from_payload double d (some (num n)) = n
from_payload double d _ = d
from_payload string d (some (text s)) = s
from_payload string d _ = d
from_payload object_path d (some (text s)) = s
from_payload object_path d _ = d
from_payload signature_string d (some (text s)) = s
from_payload signature_string d _ = d

-- The elements of a contiguous array, copied as they are.
unfoldable pub from_payloads : (t : Ty) → List Payload → List (Value t)
unfolding from_payload default_value
from_payloads (basic b) ps = map (λ p. from_payload b (default_value (basic b)) (some p)) ps
from_payloads _ ps = []

-- The operator for int64_t names a bool in its exception.
unfoldable pub read_failure : BasicType → String
read_failure boolean = "Failed to deserialize a bool value"
read_failure byte = "Failed to deserialize a byte value"
read_failure int16 = "Failed to deserialize a int16_t value"
read_failure uint16 = "Failed to deserialize a uint16_t value"
read_failure int32 = "Failed to deserialize a int32_t value"
read_failure uint32 = "Failed to deserialize a uint32_t value"
read_failure int64 = "Failed to deserialize a bool value"
read_failure uint64 = "Failed to deserialize a uint64_t value"
read_failure double = "Failed to deserialize a double value"
read_failure string = "Failed to deserialize a string value"
read_failure object_path = "Failed to deserialize an ObjectPath value"
read_failure signature_string = "Failed to deserialize a Signature value"

unfoldable pub enter_failure : Container → String
enter_failure Container.array = "Failed to enter a container"
enter_failure Container.dict_entry = "Failed to enter a dictionary entry"
enter_failure Container.variant = "Failed to enter a variant"
enter_failure Container.struct = "Failed to enter a struct"

unfoldable pub exit_failure : Container → String
exit_failure Container.array = "Failed to exit a container"
exit_failure Container.dict_entry = "Failed to exit a dictionary entry"
exit_failure Container.variant = "Failed to exit a variant"
exit_failure Container.struct = "Failed to exit a struct"

module _ (bus : SdBusMessage) where
  -- The members `msg_` and `ok_`.
  pub record Reader : Type 0 where
    pub msg : bus.Msg
    pub valid : Bool

  -- `if (r == 0) ok_ = false;` and then SDBUS_THROW_ERROR_IF(r < 0, what, -r).
  abbrev pub advanced : String → ℤ → bus.Msg → Reader → Result Reader
  advanced what r m s =
      if is_neg r
      then throw (errno_error (errno_of r) what)
      else ok (record { msg = m; valid = if is_zero r then false else s.valid })

  unfoldable pub read_basic : (b : BasicType) → Carrier b → Reader → Result (Carrier b × Reader)
  unfolding from_payload read_failure
  read_basic b d s =
      let (r, p, m) = bus.read_basic b s.msg in
      advanced (read_failure b) r m s >>= λ s'. ok (from_payload b d p, s')

  unfoldable pub read_array : BasicType → Reader → Result (List Payload × Reader)
  read_array b s =
      let (r, ps, m) = bus.read_array b s.msg in
      advanced "Failed to deserialize an array" r m s >>= λ s'. ok (ps, s')

  unfoldable pub enter : Container → List ℕ → Reader → Result Reader
  unfolding enter_failure
  enter c sig s = let (r, m) = bus.enter_container c sig s.msg in advanced (enter_failure c) r m s

  unfoldable pub exit : Container → Reader → Result Reader
  unfolding exit_failure
  exit c s =
      let (r, m) = bus.exit_container s.msg in
      throw_error_if (is_neg r) (exit_failure c) (errno_of r) >> ok (record s { msg = m })

  unfoldable pub clear_flags : Reader → Reader
  clear_flags s = record s { valid = true }
