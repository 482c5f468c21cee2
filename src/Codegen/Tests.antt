-- ===== src/Codegen/Tests.antt =====
-- The generator's functions at concrete texts.
use sdbus_cpp.Prelude.{[], ◌≡◌, refl}
use sdbus_cpp.Message.Types.{
  string, int32, Ty, basic, variant, array, dictionary, struct, unit, pair, signature_of,
}
use sdbus_cpp.Codegen.Text.{codes}
use sdbus_cpp.Codegen.Signature.{parsed, exits, signature_to_type}
use sdbus_cpp.Codegen.TypeName.{type_name}
use sdbus_cpp.Codegen.Naming.{signature_to_type-signature_of}

-- An array of structs and a dictionary.
abbrev arguments : Ty
arguments =
    pair (array (struct (pair (basic int32) (pair (basic string) unit))))
      (pair (dictionary (basic string) variant) unit)

arguments_parsed :
    signature_to_type (codes "a(is)a{sv}")
    ≡ parsed
        (codes
          "std::vector<sdbus::Struct<int32_t, std::string>>, std::map<std::string, sdbus::Variant>")
        []
unfolding signature_to_type sdbus_cpp.Codegen.Text.atomic_type_to_string
    sdbus_cpp.Codegen.Text.vector_open sdbus_cpp.Codegen.Text.struct_open
    sdbus_cpp.Codegen.Text.comma sdbus_cpp.Codegen.Text.angle_close sdbus_cpp.Codegen.Text.map_open
arguments_parsed = refl

missing_type : signature_to_type (codes "aa") ≡ exits
unfolding signature_to_type sdbus_cpp.Codegen.Text.atomic_type_to_string
    sdbus_cpp.Codegen.Text.vector_open sdbus_cpp.Codegen.Text.struct_open
    sdbus_cpp.Codegen.Text.comma sdbus_cpp.Codegen.Text.angle_close sdbus_cpp.Codegen.Text.map_open
missing_type = refl

signature_to_type_example :
    signature_to_type (signature_of arguments) ≡ parsed (type_name arguments) []
signature_to_type_example =
    signature_to_type-signature_of arguments ((tt, (tt, tt)), ((tt, tt), tt))
