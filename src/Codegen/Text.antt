-- ===== src/Codegen/Text.antt =====
-- Texts as their characters, and the names of C++ types that the generator writes:
-- tools/xml2cpp-codegen/generator_utils.cpp.
use Prim.Native.Char.{code}
use sdbus_cpp.Prelude.{ℕ, String, Option, none, some, List, [], ◌∷◌, ◌==◌, if◌then◌else◌}

abbrev pub Text : Type 0
Text = List ℕ

-- The characters of a literal. `String` has its own `[]` and `∷`.
abbrev pub codes : String → Text
codes String.[] = []
codes (String.◌∷◌ c s) = code c ∷ codes s

unfoldable pub map_open : Text
map_open = codes "std::map<"

unfoldable pub vector_open : Text
vector_open = codes "std::vector<"

unfoldable pub struct_open : Text
struct_open = codes "sdbus::Struct<"

unfoldable pub angle_close : Text
angle_close = codes ">"

unfoldable pub comma : Text
comma = codes ", "

-- The table of the basic types. It has an entry for the character zero.
abbrev pub atos : List (ℕ × Text)
atos =
    (b'y', codes "uint8_t")
    ∷ (b'b', codes "bool")
    ∷ (b'n', codes "int16_t")
    ∷ (b'q', codes "uint16_t")
    ∷ (b'i', codes "int32_t")
    ∷ (b'u', codes "uint32_t")
    ∷ (b'x', codes "int64_t")
    ∷ (b't', codes "uint64_t")
    ∷ (b'd', codes "double")
    ∷ (b's', codes "std::string")
    ∷ (b'o', codes "sdbus::ObjectPath")
    ∷ (b'g', codes "sdbus::Signature")
    ∷ (b'v', codes "sdbus::Variant")
    ∷ (b'h', codes "sdbus::UnixFd")
    ∷ (0, [])
    ∷ []

abbrev pub find_text : ℕ → List (ℕ × Text) → Option Text
find_text t [] = none
find_text t ((c, name) ∷ rest) = if t == c then some name else find_text t rest

unfoldable pub atomic_type_to_string : ℕ → Option Text
atomic_type_to_string t = find_text t atos
