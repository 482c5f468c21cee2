-- ===== src/Message/Items.antt =====
-- The contents of variants are complete items.
use sdbus_cpp.Prelude.{
  ℕ, suc, List, [], ◌∷◌, ◌++◌, ◌≡◌, refl, sym, none, some, Option, Option-cases, inl, inr,
  append_assoc, All,
}
use sdbus_cpp.Message.Types.{
  Ty, basic, variant, dict_entry, dictionary, unit, pair, BasicType, Payload, Container, Token,
  item, opening, closing, Value, signature_of,
}
use sdbus_cpp.Message.Api.{split_item, prepend, cons_first}
use sdbus_cpp.Message.Variant.{variant_contents}
use sdbus_cpp.Message.Write.{to_payload}
use sdbus_cpp.Message.Wire.{emit_each, emit_entry, emit}
use sdbus_cpp.Message.ReadLoops.{IsBalanced, IsItem}
use sdbus_cpp.Message.ReadArrays.{Readable}

prepend-append :
    (xs ys : List Token) (o : Option (List Token × List Token))
    → prepend (xs ++ ys) o ≡ prepend xs (prepend ys o)
prepend-append xs ys none = refl
prepend-append xs ys (some (as', bs)) = rw append_assoc

prepend-nil : (o : Option (List Token × List Token)) → prepend [] o ≡ o
prepend-nil none = refl
prepend-nil (some x) = refl

cons_first-prepend :
    (t : Token) (ts : List Token) (o : Option (List Token × List Token))
    → cons_first t (prepend ts o) ≡ prepend (t ∷ ts) o
cons_first-prepend t ts none = refl
cons_first-prepend t ts (some x) = refl

append-IsBalanced : (xs ys : List Token) → IsBalanced xs → IsBalanced ys → IsBalanced (xs ++ ys)
append-IsBalanced xs ys p q n rest =
    rw (append_assoc xs ys rest, p n (ys ++ rest), q n rest)
      (sym (prepend-append xs ys (split_item (suc n) rest)))

around-split :
    (c : Container) (s : List ℕ) (ts : List Token)
    → IsBalanced ts
    → (rest : List Token)
    → split_item 0 ((opening c s ∷ (ts ++ closing ∷ [])) ++ rest)
      ≡ some (opening c s ∷ (ts ++ closing ∷ []), rest)
unfolding split_item
around-split c s ts p rest = rw (append_assoc ts (closing ∷ []) rest, p 0 (closing ∷ rest))

prepend-around :
    (o c : Token) (ts : List Token) (r : Option (List Token × List Token))
    → cons_first o (prepend ts (cons_first c r)) ≡ prepend (o ∷ (ts ++ c ∷ [])) r
prepend-around o c ts none = refl
prepend-around o c ts (some (xs, ys)) = rw append_assoc

around-IsBalanced :
    (c : Container) (s : List ℕ) (ts : List Token)
    → IsBalanced ts
    → IsBalanced (opening c s ∷ (ts ++ closing ∷ []))
unfolding split_item
around-IsBalanced c s ts p n rest =
    rw (append_assoc ts (closing ∷ []) rest, p (suc n) (closing ∷ rest))
      (prepend-around (opening c s) closing ts (split_item (suc n) rest))

nil-IsBalanced : IsBalanced []
nil-IsBalanced n rest = sym (prepend-nil (split_item (suc n) rest))

item-IsBalanced : (b : BasicType) (p : Payload) → IsBalanced (item b p ∷ [])
unfolding split_item
item-IsBalanced b p n rest = elim (Option-cases (split_item (suc n) rest)) [
  | inl e ↦ rw e
  | inr (x, e) ↦ rw e
]

each-IsBalanced {ℓ κ} :
    {A : Type ℓ} {P : A → Type κ} (f : A → List Token)
    → ((x : A) → P x → IsBalanced (f x))
    → (xs : List A) → All P xs
    → IsBalanced (emit_each f xs)
each-IsBalanced f p [] all = nil-IsBalanced
each-IsBalanced f p (x ∷ xs) all =
    append-IsBalanced (f x) (emit_each f xs) (p x all.0) (each-IsBalanced f p xs all.1)

entry-IsBalanced :
    (k v : Ty) (a : Value k) (b : Value v)
    → IsBalanced (emit k a)
    → IsBalanced (emit v b)
    → IsBalanced (emit_entry k v (emit k) (emit v) (a, b))
entry-IsBalanced k v a b p q = rw (← append_assoc (emit k a) (emit v b) (closing ∷ [])) (
    around-IsBalanced Container.dict_entry (signature_of k ++ signature_of v) (emit k a ++ emit v b)
      (append-IsBalanced (emit k a) (emit v b) p q))

emit-IsBalanced : (t : Ty) (fuel : ℕ) (x : Value t) → Readable fuel t x → IsBalanced (emit t x)
unfolding emit
emit-IsBalanced (basic b) fuel x h = item-IsBalanced b (to_payload b x)
emit-IsBalanced variant fuel ts h = h.2
emit-IsBalanced (Ty.array t) fuel xs h =
    around-IsBalanced Container.array (signature_of t) (emit_each (emit t) xs)
      (each-IsBalanced (emit t) (emit-IsBalanced t fuel) xs h.2)
emit-IsBalanced (dict_entry k v) fuel (a, b) h =
    entry-IsBalanced k v a b (emit-IsBalanced k fuel a h.0) (emit-IsBalanced v fuel b h.1)
emit-IsBalanced (dictionary k v) fuel es h =
    around-IsBalanced Container.array (signature_of (dict_entry k v)) _ (
      each-IsBalanced (emit_entry k v (emit k) (emit v))
        (λ (a, b) p.
          entry-IsBalanced k v a b (emit-IsBalanced k fuel a p.0) (emit-IsBalanced v fuel b p.1))
        es h.1)
emit-IsBalanced (Ty.struct t) fuel x h =
    around-IsBalanced Container.struct (signature_of t) (emit t x) (emit-IsBalanced t fuel x h)
emit-IsBalanced unit fuel x h = nil-IsBalanced
emit-IsBalanced (pair t u) fuel (a, b) h =
    append-IsBalanced (emit t a) (emit u b) (emit-IsBalanced t fuel a h.0)
      (emit-IsBalanced u fuel b h.1)

-- The contents of a variant that was made of a value are one complete item, so that `operator>>`
-- for variants copies all of them and nothing of what follows; the value's own variants hold values.
pub variant_contents-IsItem :
    (t : Ty) (fuel : ℕ) (x : Value t) → Readable fuel t x → IsItem (variant_contents t x)
variant_contents-IsItem t fuel x h =
    let inside = emit-IsBalanced t fuel x h in
    (
      refl,
      around-split Container.variant (signature_of t) (emit t x) inside,
      around-IsBalanced Container.variant (signature_of t) (emit t x) inside,
    )
