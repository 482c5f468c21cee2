-- ===== src/Codegen/Pieces.antt =====
-- The parser of signatures at basic types, variants and the parts of a tuple.
use sdbus_cpp.Prelude.{
  ℕ, zero, suc, ◌≤◌, Bool, false, List, [], ◌∷◌, ◌++◌, length, length-append, ◌≡◌, refl, ap, ◌∙◌,
  inl, inr, arith, append_assoc, append-nil,
}
use sdbus_cpp.Message.Types.{
  BasicType, boolean, byte, int16, uint16, int32, uint32, int64, uint64, double, string,
  object_path, signature_string, Ty, basic, variant, array, dict_entry, dictionary, struct, unit,
  pair, signature_of, type_code,
}
use sdbus_cpp.Codegen.Text.{Text, comma, atomic_type_to_string}
use sdbus_cpp.Codegen.Signature.{
  parsed, other_case, element_case_of, case_of, separator, end_round, parse_signature,
}
use sdbus_cpp.Codegen.TypeName.{single, several, IsNamed, IsStop, last_of, comma_before, type_name}

-- What the parser does at the signature of a type: the name is appended, and it stands on the last
-- character; and of several types: it stands behind them.
abbrev pub Names : Ty → Type 0
Names t =
    (fuel : ℕ) (once : Bool) (rest : List ℕ) (text : Text)
    → length (signature_of t) ≤ fuel
    → parse_signature (suc fuel) once (signature_of t ++ rest) text
      ≡ end_round once (parse_signature fuel false)
          (parsed (text ++ type_name t) (last_of t ∷ rest))

abbrev pub NamesAll : Ty → Type 0
NamesAll t =
    (fuel : ℕ) (rest : List ℕ) (text : Text)
    → IsStop rest
    → length (signature_of t) ≤ fuel
    → parse_signature (suc fuel) false (signature_of t ++ rest) text
      ≡ parsed (text ++ type_name t) rest

pub basic-Names : (b : BasicType) → Names (basic b)
unfolding signature_of type_name parse_signature atomic_type_to_string
basic-Names boolean fuel once rest text h = refl
basic-Names byte fuel once rest text h = refl
basic-Names int16 fuel once rest text h = refl
basic-Names uint16 fuel once rest text h = refl
basic-Names int32 fuel once rest text h = refl
basic-Names uint32 fuel once rest text h = refl
basic-Names int64 fuel once rest text h = refl
basic-Names uint64 fuel once rest text h = refl
basic-Names double fuel once rest text h = refl
basic-Names string fuel once rest text h = refl
basic-Names object_path fuel once rest text h = refl
basic-Names signature_string fuel once rest text h = refl

pub variant-Names : Names variant
unfolding signature_of type_name parse_signature atomic_type_to_string
variant-Names fuel once rest text h = refl

basic_separator : (b : BasicType) → separator (type_code b ∷ []) ≡ comma
unfolding separator type_code
basic_separator boolean = refl
basic_separator byte = refl
basic_separator int16 = refl
basic_separator uint16 = refl
basic_separator int32 = refl
basic_separator uint32 = refl
basic_separator int64 = refl
basic_separator uint64 = refl
basic_separator double = refl
basic_separator string = refl
basic_separator object_path = refl
basic_separator signature_string = refl

pub basic_element : (b : BasicType) → element_case_of (type_code b) ≡ other_case
unfolding element_case_of type_code
basic_element boolean = refl
basic_element byte = refl
basic_element int16 = refl
basic_element uint16 = refl
basic_element int32 = refl
basic_element uint32 = refl
basic_element int64 = refl
basic_element uint64 = refl
basic_element double = refl
basic_element string = refl
basic_element object_path = refl
basic_element signature_string = refl

-- A type's signature does not begin with a closing bracket, so a comma is written before it.
pub separator-signature_of :
    (t : Ty) (rest : List ℕ) → IsNamed single t → separator (signature_of t ++ rest) ≡ comma
unfolding signature_of separator
separator-signature_of (basic b) rest h = basic_separator b
separator-signature_of variant rest h = refl
separator-signature_of (array t) rest h = refl
separator-signature_of (dictionary k v) rest h = refl
separator-signature_of (struct t) rest h = refl
separator-signature_of (dict_entry k v) rest h = absurd h
separator-signature_of unit rest h = absurd h
separator-signature_of (pair t u) rest h = absurd h

separator-stop : (rest : List ℕ) → IsStop rest → separator rest ≡ []
unfolding separator
separator-stop [] h = refl
separator-stop (c ∷ s) (inl e) = rw e refl
separator-stop (c ∷ s) (inr e) = rw e refl

pub unit-NamesAll : NamesAll unit
unfolding signature_of type_name parse_signature case_of
unit-NamesAll fuel [] text h k = rw append-nil refl
unit-NamesAll fuel (c ∷ s) text (inl e) k = rw (e, append-nil) refl
unit-NamesAll fuel (c ∷ s) text (inr e) k = rw (e, append-nil) refl

-- The comma that the parser writes in front of a tuple's rest.
separator-comma_before :
    (u : Ty) (rest : List ℕ)
    → IsNamed several u
    → IsStop rest
    → separator (signature_of u ++ rest) ≡ comma_before u
unfolding signature_of comma_before
separator-comma_before unit rest h stop = separator-stop rest stop
separator-comma_before (pair t u) rest h stop =
    rw (append_assoc (signature_of t) (signature_of u) rest)
      (separator-signature_of t (signature_of u ++ rest) h.0)
separator-comma_before (basic b) rest h stop = absurd h
separator-comma_before variant rest h stop = absurd h
separator-comma_before (array t) rest h stop = absurd h
separator-comma_before (dict_entry k v) rest h stop = absurd h
separator-comma_before (dictionary k v) rest h stop = absurd h
separator-comma_before (struct t) rest h stop = absurd h

pub length-signature_of : (t : Ty) → IsNamed single t → 1 ≤ length (signature_of t)
unfolding signature_of
length-signature_of (basic b) h = omega arith
length-signature_of variant h = omega arith
length-signature_of (array t) h = omega arith
length-signature_of (dictionary k v) h = omega arith
length-signature_of (struct t) h = omega arith
length-signature_of (dict_entry k v) h = absurd h
length-signature_of unit h = absurd h
length-signature_of (pair t u) h = absurd h

pub pair-NamesAll :
    (t u : Ty) → IsNamed single t → IsNamed several u → Names t → NamesAll u → NamesAll (pair t u)
unfolding signature_of type_name end_round
pair-NamesAll t u ht hu nt nu zero rest text stop h = absurd (
    omega (arith, h, length-append {0} (signature_of t) (signature_of u), length-signature_of t ht))
pair-NamesAll t u ht hu nt nu (suc fuel) rest text stop h =
    let lengths = length-append {0} (signature_of t) (signature_of u) in
    let first = nt (suc fuel) false (signature_of u ++ rest) text (omega (arith, h, lengths)) in
    let others =
      nu fuel rest ((text ++ type_name t) ++ comma_before u) stop
        (omega (arith, h, lengths, length-signature_of t ht)) in
    rw (append_assoc (signature_of t) (signature_of u) rest) (
      first
      ∙ ap
          (λ c.
            parse_signature (suc fuel) false (signature_of u ++ rest) ((text ++ type_name t) ++ c))
          (separator-comma_before u rest hu stop)
      ∙ others
      ∙ ap (λ name. parsed name rest)
          (append_assoc (text ++ type_name t) (comma_before u) (type_name u)
            ∙ append_assoc text (type_name t) (comma_before u ++ type_name u)))
