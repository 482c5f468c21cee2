-- ===== src/Codegen/Signature.antt =====
-- `signature_to_type` of tools/xml2cpp-codegen/generator_utils.cpp: from a D-Bus signature to the
-- names of the C++ types. The position in the signature is the rest from there on, empty at or
-- behind the end.
use sdbus_cpp.Prelude.{
  ℕ, zero, suc, Bool, true, false, ◌||◌, Option, none, some, List, [], ◌∷◌, ◌++◌, length, ◌==◌,
  if◌then◌else◌,
}
use sdbus_cpp.Codegen.Text.{
  Text, map_open, vector_open, struct_open, angle_close, comma, atomic_type_to_string,
}

-- The type so far with the rest; or the generator has reported an error and left by exit(-1).
pub data Parsed : Type 0 where
  parsed : Text → List ℕ → Parsed
  exits : Parsed
  out_of_fuel : Parsed

-- The cases of the two switches.
pub data Case : Type 0 where
  array_case struct_case end_case atom_case : Case

pub data ElementCase : Type 0 where
  map_case struct_element_case missing_case other_case : ElementCase

unfoldable pub case_of : ℕ → Case
case_of c =
    if c == b'a'
    then array_case
    else if c == b'('
    then struct_case
    else if c == b')' || c == b'}'
    then end_case
    else atom_case

unfoldable pub element_case_of : ℕ → ElementCase
element_case_of c =
    if c == b'{'
    then map_case
    else if c == b'('
    then struct_element_case
    else if c == 0
    then missing_case
    else other_case

-- `type += text` on the way back from a call.
unfoldable pub append_text : Text → Parsed → Parsed
append_text text (parsed type s) = parsed (type ++ text) s
append_text text exits = exits
append_text text out_of_fuel = out_of_fuel

abbrev pub tail : List ℕ → List ℕ
tail [] = []
tail (c ∷ s) = s

-- The comma, if another type follows here: the condition at the loop's end.
unfoldable pub separator : List ℕ → Text
separator [] = []
separator (c ∷ s) = if c == b')' || c == b'}' then [] else comma

-- The end of a round: return if only one type is wanted, and go on behind it otherwise.
unfoldable pub end_round : Bool → (List ℕ → Text → Parsed) → Parsed → Parsed
unfolding separator
end_round true next (parsed type s) = parsed type s
end_round false next (parsed type s) = next (tail s) (type ++ separator (tail s))
end_round only_once next exits = exits
end_round only_once next out_of_fuel = out_of_fuel

-- `case 'a'`: what stands behind it. The first argument is the function's call of itself.
unfoldable pub parse_element : (Bool → List ℕ → Text → Parsed) → List ℕ → Text → Parsed
unfolding element_case_of append_text
parse_element parse [] type = exits
parse_element parse (e ∷ s) type = elim (element_case_of e) [
  | map_case ↦ append_text angle_close (parse false s (type ++ map_open))
  | struct_element_case ↦
      append_text (angle_close ++ angle_close)
        (parse false s (type ++ (vector_open ++ struct_open)))
  | missing_case ↦ exits
  | other_case ↦ append_text angle_close (parse true (e ∷ s) (type ++ vector_open))
]

-- The default case: the name of a basic type.
unfoldable pub append_atom : Option Text → List ℕ → Text → Parsed
append_atom none s type = exits
append_atom (some name) s type = parsed (type ++ name) s

unfoldable pub parse_signature : ℕ → Bool → List ℕ → Text → Parsed
unfolding case_of parse_element append_text append_atom end_round
parse_signature zero only_once s type = out_of_fuel
parse_signature (suc fuel) only_once [] type = parsed type []
parse_signature (suc fuel) only_once (c ∷ s) type = elim (case_of c) [
  | array_case ↦
      end_round only_once (parse_signature fuel false) (parse_element (parse_signature fuel) s type)
  | struct_case ↦
      end_round only_once (parse_signature fuel false)
        (append_text angle_close (parse_signature fuel false s (type ++ struct_open)))
  | end_case ↦ parsed type (c ∷ s)
  | atom_case ↦
      end_round only_once (parse_signature fuel false)
        (append_atom (atomic_type_to_string c) (c ∷ s) type)
]

-- As many rounds as the signature has characters are enough.
unfoldable pub signature_to_type : List ℕ → Parsed
unfolding parse_signature
signature_to_type s = parse_signature (suc (length s)) false s []
