-- ===== src/Message/Types.antt =====
-- The C++ types that sdbus-c++ maps to D-Bus types, their values and their signatures:
-- include/sdbus-c++/TypeTraits.h (`signature_of`) and include/sdbus-c++/Message.h.
use sdbus_cpp.Prelude.{ℕ, String, Bool, true, false, not, ◌&&◌, List, [], ◌∷◌, ◌++◌}

-- The D-Bus basic types for which `Message` has an operator of its own. `unix_fd` is not among
-- them, since reading one duplicates the descriptor.
pub data BasicType : Type 0 where
  boolean byte int16 uint16 int32 uint32 int64 uint64 double : BasicType
  string object_path signature_string : BasicType

-- `std::tuple<T, Ts...>` is `pair T Ts`, and `std::tuple<>` is `unit`; `Struct<Ts...>` is `struct`
-- of that tuple. A `dictionary` is what `serializeDictionary` writes, a map being one.
pub data Ty : Type 0 where
  basic : BasicType → Ty
  variant : Ty
  array : Ty → Ty
  dict_entry : Ty → Ty → Ty
  dictionary : Ty → Ty → Ty
  struct : Ty → Ty
  unit : Ty
  pair : Ty → Ty → Ty

-- The member `value` of `signature_of<T>` at a basic type.
unfoldable pub type_code : BasicType → ℕ
type_code boolean = b'b'
type_code byte = b'y'
type_code int16 = b'n'
type_code uint16 = b'q'
type_code int32 = b'i'
type_code uint32 = b'u'
type_code int64 = b'x'
type_code uint64 = b't'
type_code double = b'd'
type_code string = b's'
type_code object_path = b'o'
type_code signature_string = b'g'

-- `signature_of<T>::value`.
unfoldable pub signature_of : Ty → List ℕ
unfolding type_code
signature_of (basic b) = type_code b ∷ []
signature_of variant = b'v' ∷ []
signature_of (array t) = b'a' ∷ signature_of t
signature_of (dict_entry k v) = b'{' ∷ (signature_of k ++ (signature_of v ++ b'}' ∷ []))
signature_of (dictionary k v) = b'a' ∷ b'{' ∷ (signature_of k ++ (signature_of v ++ b'}' ∷ []))
signature_of (struct t) = b'(' ∷ (signature_of t ++ b')' ∷ [])
signature_of unit = []
signature_of (pair t u) = signature_of t ++ signature_of u

-- `signature_of<T>::is_trivial_dbus_type` at a basic type.
unfoldable pub is_trivial_dbus_type : BasicType → Bool
is_trivial_dbus_type string = false
is_trivial_dbus_type object_path = false
is_trivial_dbus_type signature_string = false
is_trivial_dbus_type _ = true

unfoldable pub is_bool : BasicType → Bool
is_bool boolean = true
is_bool _ = false

-- The condition under which an array is (de)serialized in one step.
unfoldable pub is_contiguous : BasicType → Bool
unfolding is_trivial_dbus_type is_bool
is_contiguous b = is_trivial_dbus_type b && not (is_bool b)

-- What a basic value is on the wire: the bit pattern of a number, or a text.
pub data Payload : Type 0 where
  num : ℕ → Payload
  text : String → Payload

pub data Container : Type 0 where
  array dict_entry variant struct : Container

-- The contents of a message in the order in which they are appended and read.
pub data Token : Type 0 where
  item : BasicType → Payload → Token
  opening : Container → List ℕ → Token
  closing : Token

-- The C++ values of a basic type. Numbers are bit patterns.
abbrev pub Carrier : BasicType → Type 0
Carrier boolean = Bool
Carrier string = String
Carrier object_path = String
Carrier signature_string = String
Carrier _ = ℕ

-- The C++ values of a type. A `Variant` is the contents of the message that it owns.
abbrev pub Value : Ty → Type 0
Value (basic b) = Carrier b
Value variant = List Token
Value (array t) = List (Value t)
Value (dict_entry k v) = Value k × Value v
Value (dictionary k v) = List (Value k × Value v)
Value (struct t) = Value t
Value unit = Unit {0}
Value (pair t u) = Value t × Value u

-- The value that a default-constructed (and zeroed) object of the type has.
unfoldable pub default_value : (t : Ty) → Value t
default_value (basic boolean) = false
default_value (basic byte) = 0
default_value (basic int16) = 0
default_value (basic uint16) = 0
default_value (basic int32) = 0
default_value (basic uint32) = 0
default_value (basic int64) = 0
default_value (basic uint64) = 0
default_value (basic double) = 0
default_value (basic string) = ""
default_value (basic object_path) = ""
default_value (basic signature_string) = ""
default_value variant = []
default_value (array t) = []
default_value (dict_entry k v) = (default_value k, default_value v)
default_value (dictionary k v) = []
default_value (struct t) = default_value t
default_value unit = tt
default_value (pair t u) = (default_value t, default_value u)
