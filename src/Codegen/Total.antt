-- ===== src/Codegen/Total.antt =====
-- The parser of signatures in tools/xml2cpp-codegen/generator_utils.cpp ends at every text.
use sdbus_cpp.Prelude.{
  ℕ, zero, suc, ◌≤◌, Bool, true, false, Option, none, some, List, [], ◌∷◌, ◌++◌, length, ◌≡◌, refl,
  ◌⊎◌, inl, inr, arith,
}
use sdbus_cpp.Codegen.Text.{Text, struct_open, atomic_type_to_string}
use sdbus_cpp.Codegen.Signature.{
  Parsed, parsed, exits, out_of_fuel, Case, array_case, struct_case, end_case, atom_case,
  ElementCase, map_case, struct_element_case, missing_case, other_case, case_of, element_case_of,
  append_text, append_atom, parse_element, tail, separator, end_round, parse_signature,
  signature_to_type,
}

-- The parser returned with at most so many characters left, or it has reported an error.
abbrev pub Ends : ℕ → Parsed → Type 0
Ends n (parsed text s) = length s ≤ n
Ends n exits = Unit
Ends n out_of_fuel = ⊥

Ends-weaken : (m n : ℕ) (p : Parsed) → m ≤ n → Ends m p → Ends n p
Ends-weaken m n (parsed text s) h e = omega arith
Ends-weaken m n exits h e = tt
Ends-weaken m n out_of_fuel h e = absurd e

append_text-Ends : (n : ℕ) (text : Text) (p : Parsed) → Ends n p → Ends n (append_text text p)
unfolding append_text
append_text-Ends n text (parsed t s) e = e
append_text-Ends n text exits e = tt
append_text-Ends n text out_of_fuel e = absurd e

length-tail : (n : ℕ) (s : List ℕ) → length s ≤ suc n → length (tail s) ≤ n
length-tail n [] h = omega arith
length-tail n (c ∷ s) h = omega arith

end_round-Ends :
    (n : ℕ) (once : Bool) (next : List ℕ → Text → Parsed) (p : Parsed)
    → ((s : List ℕ) (text : Text) → length s ≤ n → Ends n (next s text))
    → Ends (suc n) p
    → Ends (suc n) (end_round once next p)
unfolding end_round
end_round-Ends n true next (parsed t s) more e = e
end_round-Ends n false next (parsed t s) more e =
    Ends-weaken n (suc n) (next (tail s) (t ++ separator (tail s))) (omega arith)
      (more (tail s) _ (length-tail n s e))
end_round-Ends n true next exits more e = tt
end_round-Ends n false next exits more e = tt
end_round-Ends n true next out_of_fuel more e = absurd e
end_round-Ends n false next out_of_fuel more e = absurd e

Case-cases :
    (k : Case) → (k ≡ array_case) ⊎ ((k ≡ struct_case) ⊎ ((k ≡ end_case) ⊎ (k ≡ atom_case)))
Case-cases array_case = inl refl
Case-cases struct_case = inr (inl refl)
Case-cases end_case = inr (inr (inl refl))
Case-cases atom_case = inr (inr (inr refl))

ElementCase-cases :
    (k : ElementCase)
    → (k ≡ map_case) ⊎ ((k ≡ struct_element_case) ⊎ ((k ≡ missing_case) ⊎ (k ≡ other_case)))
ElementCase-cases map_case = inl refl
ElementCase-cases struct_element_case = inr (inl refl)
ElementCase-cases missing_case = inr (inr (inl refl))
ElementCase-cases other_case = inr (inr (inr refl))

parse_element-Ends :
    (n : ℕ) (parse : Bool → List ℕ → Text → Parsed) (s : List ℕ) (text : Text)
    → ((once : Bool) (s : List ℕ) (text : Text) → length s ≤ n → Ends n (parse once s text))
    → length s ≤ n
    → Ends n (parse_element parse s text)
unfolding parse_element
parse_element-Ends n parse [] text more h = tt
parse_element-Ends n parse (e ∷ s) text more h = elim (ElementCase-cases (element_case_of e)) [
  | inl k ↦ rw (k, parse_element) (append_text-Ends n _ _ (more false s _ (omega arith)))
  | inr (inl k) ↦ rw (k, parse_element) (append_text-Ends n _ _ (more false s _ (omega arith)))
  | inr (inr (inl k)) ↦ rw (k, parse_element) tt
  | inr (inr (inr k)) ↦ rw (k, parse_element) (append_text-Ends n _ _ (more true (e ∷ s) _ h))
]

append_atom-Ends :
    (n : ℕ) (name : Option Text) (s : List ℕ) (text : Text)
    → length s ≤ n
    → Ends n (append_atom name s text)
unfolding append_atom
append_atom-Ends n none s text h = tt
append_atom-Ends n (some name) s text h = h

parse_signature-Ends :
    (fuel n : ℕ) (once : Bool) (s : List ℕ) (text : Text)
    → length s ≤ n
    → suc n ≤ fuel
    → Ends n (parse_signature fuel once s text)
unfolding parse_signature
parse_signature-Ends zero n once s text h k = absurd (omega arith)
parse_signature-Ends (suc fuel) n once [] text h k = omega arith
parse_signature-Ends (suc fuel) zero once (c ∷ s) text h k = absurd (omega arith)
parse_signature-Ends (suc fuel) (suc n) once (c ∷ s) text h k =
    let more = λ (once : Bool) (s : List ℕ) (text : Text) (shorter : length s ≤ n).
      parse_signature-Ends fuel n once s text shorter (omega arith) in
    let wider = λ (p : Parsed) (e : Ends n p). Ends-weaken n (suc n) p (omega arith) e in
    elim (Case-cases (case_of c)) [
      | inl e ↦
          rw (e, parse_signature)
            (end_round-Ends n once _ _ (more false)
              (wider _ (parse_element-Ends n (parse_signature fuel) s text more (omega arith))))
      | inr (inl e) ↦
          rw (e, parse_signature)
            (end_round-Ends n once _ _ (more false) (
              append_text-Ends (suc n) _ _
                (wider _ (more false s (text ++ struct_open) (omega arith)))))
      | inr (inr (inl e)) ↦ rw (e, parse_signature) h
      | inr (inr (inr e)) ↦
          rw (e, parse_signature)
            (end_round-Ends n once _ _ (more false)
              (append_atom-Ends (suc n) (atomic_type_to_string c) (c ∷ s) text h))
    ]

-- For every text the generator ends: it writes a type, or reports an error and leaves.
pub signature_to_type-Ends : (s : List ℕ) → Ends (length s) (signature_to_type s)
unfolding signature_to_type
signature_to_type-Ends s =
    parse_signature-Ends (suc (length s)) (length s) false s [] (omega arith) (omega arith)
