-- ===== src/Codegen/TypeName.antt =====
-- The generator of tools/xml2cpp-codegen names the types whose signatures
-- include/sdbus-c++/TypeTraits.h computes.
use sdbus_cpp.Prelude.{ℕ, List, [], ◌∷◌, ◌++◌, ◌≡◌, ◌⊎◌}
use sdbus_cpp.Message.Types.{
  BasicType, boolean, byte, int16, uint16, int32, uint32, int64, uint64, double, string,
  object_path, signature_string, Ty, basic, variant, array, dict_entry, dictionary, struct, unit,
  pair, type_code,
}
use sdbus_cpp.Codegen.Text.{Text, codes, map_open, vector_open, struct_open, angle_close, comma}

-- The C++ names of the types, written down directly.
unfoldable pub basic_name : BasicType → Text
basic_name boolean = codes "bool"
basic_name byte = codes "uint8_t"
basic_name int16 = codes "int16_t"
basic_name uint16 = codes "uint16_t"
basic_name int32 = codes "int32_t"
basic_name uint32 = codes "uint32_t"
basic_name int64 = codes "int64_t"
basic_name uint64 = codes "uint64_t"
basic_name double = codes "double"
basic_name string = codes "std::string"
basic_name object_path = codes "sdbus::ObjectPath"
basic_name signature_string = codes "sdbus::Signature"

unfoldable pub comma_before : Ty → Text
comma_before unit = []
comma_before _ = comma

unfoldable pub type_name : Ty → Text
unfolding basic_name comma_before
type_name (basic b) = basic_name b
type_name variant = codes "sdbus::Variant"
type_name (array t) = vector_open ++ (type_name t ++ angle_close)
type_name (dict_entry k v) = type_name k ++ (comma ++ type_name v)
type_name (dictionary k v) = map_open ++ (type_name k ++ (comma ++ (type_name v ++ angle_close)))
type_name (struct t) = struct_open ++ (type_name t ++ angle_close)
type_name unit = []
type_name (pair t u) = type_name t ++ (comma_before u ++ type_name u)

-- One complete type, or the types of a tuple.
pub data Role : Type 0 where
  single several : Role

abbrev pub IsNamed : Role → Ty → Type 0
IsNamed single (basic b) = Unit
IsNamed single variant = Unit
IsNamed single (array t) = IsNamed single t
IsNamed single (dictionary k v) = IsNamed single k × IsNamed single v
IsNamed single (struct t) = IsNamed several t
IsNamed several unit = Unit
IsNamed several (pair t u) = IsNamed single t × IsNamed several u
IsNamed _ _ = ⊥

-- The end of the signature, or of what a bracket opened.
abbrev pub IsStop : List ℕ → Type 0
IsStop [] = Unit
IsStop (c ∷ s) = (c ≡ b')') ⊎ (c ≡ b'}')

-- The last character of the signature of one type.
abbrev pub last_of : Ty → ℕ
last_of (basic b) = type_code b
last_of variant = b'v'
last_of (array t) = last_of t
last_of (dict_entry k v) = b'}'
last_of (dictionary k v) = b'}'
last_of (struct t) = b')'
last_of unit = 0
last_of (pair t u) = 0
