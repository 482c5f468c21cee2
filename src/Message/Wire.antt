-- ===== src/Message/Wire.antt =====
-- The contents that each C++ value stands for on the wire: the independent description that the
-- operators `<<` and `>>` are held against.
use sdbus_cpp.Prelude.{List, [], ◌∷◌, ◌++◌, ◌≡◌, refl, ap, map}
use sdbus_cpp.Message.Types.{
  BasicType, Ty, basic, variant, dict_entry, dictionary, unit, pair, Container, Token, item,
  opening, closing, Carrier, Value, signature_of,
}
use sdbus_cpp.Message.Api.{items}
use sdbus_cpp.Message.Write.{to_payload}

-- The tokens of the elements, one after the other.
abbrev pub emit_each {ℓ} : {A : Type ℓ} → (A → List Token) → List A → List Token
emit_each f [] = []
emit_each f (x ∷ xs) = f x ++ emit_each f xs

abbrev pub emit_entry :
    (k v : Ty) → (Value k → List Token) → (Value v → List Token) → Value k × Value v → List Token
emit_entry k v f g (a, b) =
    opening Container.dict_entry (signature_of k ++ signature_of v) ∷ (f a ++ (g b ++ closing ∷ []))

abbrev pub emit_array {ℓ} : {A : Type ℓ} → Ty → (A → List Token) → List A → List Token
emit_array t f xs = opening Container.array (signature_of t) ∷ (emit_each f xs ++ closing ∷ [])

unfoldable pub emit : (t : Ty) → Value t → List Token
emit (basic b) x = item b (to_payload b x) ∷ []
emit variant ts = ts
emit (Ty.array t) xs = emit_array t (emit t) xs
emit (dict_entry k v) e = emit_entry k v (emit k) (emit v) e
emit (dictionary k v) es = emit_array (dict_entry k v) (emit_entry k v (emit k) (emit v)) es
emit (Ty.struct t) x = opening Container.struct (signature_of t) ∷ (emit t x ++ closing ∷ [])
emit unit x = []
emit (pair t u) (a, b) = emit t a ++ emit u b

-- An array that goes out in one step has the contents of one that goes out element by element.
pub items-emit_each :
    (b : BasicType) (xs : List (Carrier b))
    → items b (map (to_payload b) xs) ≡ emit_each (emit (basic b)) xs
unfolding emit
items-emit_each b [] = refl
items-emit_each b (x ∷ xs) = ap (λ ts. item b (to_payload b x) ∷ ts) (items-emit_each b xs)
