-- ===== src/Codegen/Naming.antt =====
-- The parser of signatures at arrays, dictionaries and structs, and at every list of types.
use sdbus_cpp.Prelude.{
  ℕ, zero, suc, ◌≤◌, Bool, true, false, List, [], ◌∷◌, ◌++◌, length, length-append, ◌≡◌, refl, sym,
  ap, ◌∙◌, inl, inr, arith, append_assoc, append-nil,
}
use sdbus_cpp.Message.Types.{
  Ty, basic, variant, array, dict_entry, dictionary, struct, unit, pair, signature_of, type_code,
}
use sdbus_cpp.Codegen.Text.{Text, map_open, vector_open, struct_open, angle_close, comma}
use sdbus_cpp.Codegen.Signature.{
  parsed, other_case, element_case_of, case_of, append_text, end_round, parse_element,
  parse_signature, signature_to_type,
}
use sdbus_cpp.Codegen.TypeName.{
  Role, single, several, IsNamed, IsStop, last_of, comma_before, type_name,
}
use sdbus_cpp.Codegen.Pieces.{
  Names, NamesAll, basic-Names, variant-Names, basic_element, unit-NamesAll, pair-NamesAll,
}

-- What is read between an opening text and a closing one.
bracket-Names :
    (t : Ty) (before after text : Text) (b : ℕ) (rest : List ℕ) (fuel : ℕ)
    → NamesAll t
    → IsStop (b ∷ rest)
    → length (signature_of t ++ b ∷ []) ≤ suc fuel
    → append_text after
        (parse_signature (suc fuel) false ((signature_of t ++ b ∷ []) ++ rest) (text ++ before))
      ≡ parsed (text ++ (before ++ (type_name t ++ after))) (b ∷ rest)
unfolding append_text
bracket-Names t before after text b rest fuel all stop h =
    let inside =
      all fuel (b ∷ rest) (text ++ before) stop
        (omega (arith, h, length-append {0} (signature_of t) (b ∷ []))) in
    ap (λ s. append_text after (parse_signature (suc fuel) false s (text ++ before)))
      (append_assoc (signature_of t) (b ∷ []) rest)
    ∙ ap (append_text after) inside
    ∙ ap (λ name. parsed name (b ∷ rest))
        (append_assoc (text ++ before) (type_name t) after
          ∙ append_assoc text before (type_name t ++ after))

struct-Names : (t : Ty) → NamesAll t → Names (struct t)
unfolding signature_of type_name parse_signature case_of
struct-Names t all zero once rest text h = absurd (omega arith)
struct-Names t all (suc fuel) once rest text h =
    ap (end_round once (parse_signature (suc fuel) false))
      (bracket-Names t struct_open angle_close text b')' rest fuel all (inl refl) (omega arith))

struct_array-Names : (t : Ty) → NamesAll t → Names (array (struct t))
unfolding signature_of type_name parse_signature case_of element_case_of
struct_array-Names t all zero once rest text h = absurd (omega arith)
struct_array-Names t all (suc fuel) once rest text h =
    ap (end_round once (parse_signature (suc fuel) false)) (
      bracket-Names t (vector_open ++ struct_open) (angle_close ++ angle_close) text b')' rest fuel
        all (inl refl) (omega arith)
      ∙ ap (λ name. parsed (text ++ name) (b')' ∷ rest))
          (append_assoc vector_open struct_open (type_name t ++ (angle_close ++ angle_close))
            ∙ ap (λ name. vector_open ++ (struct_open ++ name))
                (sym (append_assoc (type_name t) angle_close angle_close))
            ∙ ap (λ name. vector_open ++ name)
                (sym (append_assoc struct_open (type_name t ++ angle_close) angle_close))))

dictionary-Names : (k v : Ty) → NamesAll (pair k (pair v unit)) → Names (dictionary k v)
unfolding signature_of type_name parse_signature case_of element_case_of comma_before
dictionary-Names k v all zero once rest text h = absurd (omega arith)
dictionary-Names k v all (suc fuel) once rest text h =
    let inner = signature_of (pair k (pair v unit)) in
    let same : inner ++ b'}' ∷ [] ≡ signature_of k ++ (signature_of v ++ b'}' ∷ []) =
      append_assoc (signature_of k) (signature_of v ++ []) (b'}' ∷ [])
      ∙ ap (λ s. signature_of k ++ (s ++ b'}' ∷ [])) (append-nil (signature_of v)) in
    ap (end_round once (parse_signature (suc fuel) false)) (
      ap
        (λ s.
          append_text angle_close (parse_signature (suc fuel) false (s ++ rest) (text ++ map_open)))
        (sym same)
      ∙ bracket-Names (pair k (pair v unit)) map_open angle_close text b'}' rest fuel all (inr refl)
          (rw same (omega arith))
      ∙ ap (λ name. parsed (text ++ (map_open ++ name)) (b'}' ∷ rest))
          (append_assoc (type_name k) (comma ++ (type_name v ++ [])) angle_close
            ∙ ap (λ name. type_name k ++ name)
                (append_assoc comma (type_name v ++ []) angle_close
                  ∙ ap (λ name. comma ++ (name ++ angle_close)) (append-nil (type_name v)))))

other_element :
    (fuel e : ℕ) (s : List ℕ) (once : Bool) (text : Text)
    → element_case_of e ≡ other_case
    → parse_signature (suc fuel) once (b'a' ∷ (e ∷ s)) text
      ≡ end_round once
          (parse_signature fuel false)
          (append_text angle_close (parse_signature fuel true (e ∷ s) (text ++ vector_open)))
unfolding parse_signature case_of
other_element fuel e s once text h =
    ap (end_round once (parse_signature fuel false)) (rw (h, parse_element) refl)

-- An array of something that is neither a struct nor a dictionary entry.
array-Names :
    (t : Ty) (e : ℕ) (s : List ℕ)
    → signature_of t ≡ e ∷ s
    → element_case_of e ≡ other_case
    → Names t
    → Names (array t)
unfolding signature_of type_name end_round append_text
array-Names t e s begins other element zero once rest text h = absurd (omega arith)
array-Names t e s begins other element (suc fuel) once rest text h =
    let element' = element fuel true rest (text ++ vector_open) (omega arith) in
    let step = other_element (suc fuel) e (s ++ rest) once text other in
    ap (λ z. parse_signature (suc (suc fuel)) once (b'a' ∷ (z ++ rest)) text) begins
    ∙ step
    ∙ ap (end_round once (parse_signature (suc fuel) false)) (
        ap
          (λ z.
            append_text angle_close
              (parse_signature (suc fuel) true (z ++ rest) (text ++ vector_open)))
          (sym begins)
        ∙ ap (append_text angle_close) element'
        ∙ ap (λ name. parsed name (last_of t ∷ rest))
            (append_assoc (text ++ vector_open) (type_name t) angle_close
              ∙ append_assoc text vector_open (type_name t ++ angle_close)))

abbrev pub NamesAs : Role → Ty → Type 0
NamesAs single t = Names t
NamesAs several t = NamesAll t

named-NamesAs : (r : Role) (t : Ty) → IsNamed r t → NamesAs r t
unfolding signature_of element_case_of
named-NamesAs single (basic b) h = basic-Names b
named-NamesAs single variant h = variant-Names
named-NamesAs single (array (basic b)) h =
    array-Names (basic b) (type_code b) [] refl (basic_element b) (basic-Names b)
named-NamesAs single (array variant) h = array-Names variant b'v' [] refl refl variant-Names
named-NamesAs single (array (array t)) h =
    array-Names (array t) b'a' (signature_of t) refl refl (named-NamesAs single (array t) h)
named-NamesAs single (array (dictionary k v)) h =
    array-Names (dictionary k v) b'a' _ refl refl (named-NamesAs single (dictionary k v) h)
named-NamesAs single (array (struct t)) h = struct_array-Names t (named-NamesAs several t h)
named-NamesAs single (array (dict_entry k v)) h = absurd h
named-NamesAs single (array unit) h = absurd h
named-NamesAs single (array (pair t u)) h = absurd h
named-NamesAs single (dictionary k v) h = dictionary-Names k v (
    pair-NamesAll k (pair v unit) h.0 (h.1, tt) (named-NamesAs single k h.0)
      (pair-NamesAll v unit h.1 tt (named-NamesAs single v h.1) unit-NamesAll))
named-NamesAs single (struct t) h = struct-Names t (named-NamesAs several t h)
named-NamesAs several unit h = unit-NamesAll
named-NamesAs several (pair t u) h =
    pair-NamesAll t u h.0 h.1 (named-NamesAs single t h.0) (named-NamesAs several u h.1)
named-NamesAs single (dict_entry k v) h = absurd h
named-NamesAs single unit h = absurd h
named-NamesAs single (pair t u) h = absurd h
named-NamesAs several (basic b) h = absurd h
named-NamesAs several variant h = absurd h
named-NamesAs several (array t) h = absurd h
named-NamesAs several (dict_entry k v) h = absurd h
named-NamesAs several (dictionary k v) h = absurd h
named-NamesAs several (struct t) h = absurd h

-- From the signature that the library computes for a list of types, the generator writes the names
-- of these types, separated by commas: for basic types, variants, vectors, maps, structs and any
-- nesting of them.
pub signature_to_type-signature_of :
    (t : Ty) → IsNamed several t → signature_to_type (signature_of t) ≡ parsed (type_name t) []
unfolding signature_to_type
signature_to_type-signature_of t h =
    ap (λ s. parse_signature (suc (length (signature_of t))) false s [])
      (sym (append-nil (signature_of t)))
    ∙ named-NamesAs several t h (length (signature_of t)) [] [] tt (omega arith)
