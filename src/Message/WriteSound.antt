-- ===== src/Message/WriteSound.antt =====
-- What a successful serialization has appended.
use sdbus_cpp.Prelude.{
  ℕ, ℤ, is_neg, String, true, false, none, List, [], ◌∷◌, ◌++◌, map, Result, ok, ◌>>=◌, >>=-eq-ok,
  Bool-cases, ◌≡◌, refl, ap, ◌∙◌, inl, inr, append_assoc, append-nil, arith,
}
use sdbus_cpp.Message.Types.{
  BasicType, Ty, basic, variant, dict_entry, dictionary, unit, pair, Container, Token, opening,
  closing, Value, signature_of, is_contiguous,
}
use sdbus_cpp.Message.Api.{SdBusMessage, AppendLaws}
use sdbus_cpp.Message.Write.{
  checked, to_payload, contiguous_type, begin_container, end_container, write_each, serialize_array,
  write_entry, write,
}
use sdbus_cpp.Message.Wire.{emit_each, emit_entry, emit_array, emit, items-emit_each}

pub checked-inv :
    (bus : SdBusMessage) (what : String) (x : ℤ × bus.Msg) {m : bus.Msg}
    → checked bus what x ≡ ok m
    → (is_neg x.0 ≡ false) × (x.1 ≡ m)
checked-inv bus what (r, m) h = ground arith

module _ (bus : SdBusMessage) (laws : AppendLaws bus) where
  -- Whenever the step succeeds, it has appended exactly these tokens.
  abbrev pub Appends : List Token → (bus.Msg → Result bus.Msg) → Type 0
  Appends ts f = (m m' : bus.Msg) → f m ≡ ok m' → laws.written m' ≡ laws.written m ++ ts

  Appends-bind :
      (xs ys : List Token) (f g : bus.Msg → Result bus.Msg)
      → Appends xs f
      → Appends ys g
      → Appends (xs ++ ys) (λ m. f m >>= g)
  Appends-bind xs ys f g p q m m' h =
      let (m₁, e₁, e₂) = >>=-eq-ok (f m) g h in
      q m₁ m' e₂ ∙ ap (λ ts. ts ++ ys) (p m m₁ e₁) ∙ append_assoc (laws.written m) xs ys

  begin_container-Appends :
      (c : Container) (s : List ℕ) → Appends (opening c s ∷ []) (begin_container bus c s)
  unfolding begin_container
  begin_container-Appends c s m m' h =
      let (good, e) = checked-inv bus _ (bus.open_container c s m) h in
      rw (← e) (laws.open_container_lem c s m good)

  end_container-Appends : (c : Container) → Appends (closing ∷ []) (end_container bus c)
  unfolding end_container
  end_container-Appends c m m' h =
      let (good, e) = checked-inv bus _ (bus.close_container m) h in
      rw (← e) (laws.close_container_lem m good)

  -- A container around a step.
  pub around-Appends :
      (c : Container) (s : List ℕ) (ts : List Token) (f : bus.Msg → Result bus.Msg)
      → Appends ts f
      → Appends
          (opening c s ∷ (ts ++ closing ∷ []))
          (λ m. begin_container bus c s m >>= λ opened. f opened >>= end_container bus c)
  around-Appends c s ts f p =
      Appends-bind (opening c s ∷ []) (ts ++ closing ∷ []) (begin_container bus c s)
        (λ m. f m >>= end_container bus c) (begin_container-Appends c s)
        (Appends-bind ts (closing ∷ []) f (end_container bus c) p (end_container-Appends c))

  write_each-Appends {ℓ} :
      {A : Type ℓ} (emit_one : A → List Token) (one : A → bus.Msg → Result bus.Msg)
      → ((x : A) → Appends (emit_one x) (one x))
      → (xs : List A) → Appends (emit_each emit_one xs) (write_each bus one xs)
  unfolding write_each
  write_each-Appends emit_one one p [] m m' h = rw append-nil (ground arith)
  write_each-Appends emit_one one p (x ∷ xs) m m' h =
      Appends-bind (emit_one x) (emit_each emit_one xs) (one x) (write_each bus one xs) (p x)
        (write_each-Appends emit_one one p xs) m m' h

  write_entry-Appends :
      (k v : Ty) (a : Value k) (b : Value v)
      → Appends (emit k a) (write bus k a)
      → Appends (emit v b) (write bus v b)
      → Appends
          (emit_entry k v (emit k) (emit v) (a, b))
          (write_entry bus k v (write bus k) (write bus v) (a, b))
  unfolding write_entry
  write_entry-Appends k v a b p q =
      Appends-bind (opening Container.dict_entry _ ∷ []) (emit k a ++ (emit v b ++ closing ∷ []))
        (begin_container bus Container.dict_entry _)
        (λ m. write bus k a m >>= λ m₁. write bus v b m₁ >>= end_container bus Container.dict_entry)
        (begin_container-Appends Container.dict_entry _)
        (Appends-bind (emit k a) (emit v b ++ closing ∷ []) (write bus k a)
          (λ m. write bus v b m >>= end_container bus Container.dict_entry) p
          (Appends-bind (emit v b) (closing ∷ []) (write bus v b)
            (end_container bus Container.dict_entry) q
            (end_container-Appends Container.dict_entry)))

  serialize_array_slow :
      (t : Ty) (xs : List (Value t))
      → contiguous_type t ≡ none
      → ((x : Value t) → Appends (emit t x) (write bus t x))
      → Appends (emit_array t (emit t) xs) (serialize_array bus t (write bus t) xs)
  unfolding serialize_array
  serialize_array_slow t xs slow p m m' h =
      around-Appends Container.array (signature_of t) (emit_each (emit t) xs)
        (write_each bus (write bus t) xs) (write_each-Appends (emit t) (write bus t) p xs) m m'
        (rw (slow, serialize_array) at h)

  serialize_array_fast :
      (b : BasicType) (xs : List (Value (basic b)))
      → is_contiguous b ≡ true
      → Appends
          (emit_array (basic b) (emit (basic b)) xs)
          (serialize_array bus (basic b) (write bus (basic b)) xs)
  unfolding serialize_array signature_of
  serialize_array_fast b xs fast m m' h =
      let (good, e) =
        checked-inv bus _ (bus.append_array b (map (to_payload b) xs) m)
          (rw (fast, contiguous_type, serialize_array) at h) in
      rw (← e, ← items-emit_each b xs) (laws.append_array_lem b (map (to_payload b) xs) m good)

  serialize_array-Appends :
      (t : Ty) (xs : List (Value t))
      → ((x : Value t) → Appends (emit t x) (write bus t x))
      → Appends (emit_array t (emit t) xs) (serialize_array bus t (write bus t) xs)
  unfolding contiguous_type
  serialize_array-Appends (basic b) xs p = elim (Bool-cases (is_contiguous b)) [
    | inl fast ↦ serialize_array_fast b xs fast
    | inr slow ↦ serialize_array_slow (basic b) xs (rw (slow, contiguous_type)) p
  ]
  serialize_array-Appends t xs p = serialize_array_slow t xs refl p

  write-Appends : (t : Ty) (x : Value t) → Appends (emit t x) (write bus t x)
  unfolding write emit
  write-Appends (basic b) x m m' h =
      let (good, e) = checked-inv bus _ (bus.append_basic b (to_payload b x) m) h in
      rw (← e) (laws.append_basic_lem b (to_payload b x) m good)
  write-Appends variant [] m m' h = cc
  write-Appends variant (t ∷ ts) m m' h =
      let (u, rewound, copied) =
        >>=-eq-ok _ (λ rewound. checked bus "Failed to copy the message" (bus.copy_all (t ∷ ts) m))
          h in
      let (good, e) = checked-inv bus _ (bus.copy_all (t ∷ ts) m) copied in
      rw (← e) (laws.copy_all_lem (t ∷ ts) m good)
  write-Appends (Ty.array t) xs m m' h = serialize_array-Appends t xs (write-Appends t) m m' h
  write-Appends (dict_entry k v) (a, b) m m' h =
      write_entry-Appends k v a b (write-Appends k a) (write-Appends v b) m m' h
  write-Appends (dictionary k v) es m m' h =
      around-Appends Container.array (signature_of (dict_entry k v)) _
        (write_each bus (write_entry bus k v (write bus k) (write bus v)) es)
        (write_each-Appends (emit_entry k v (emit k) (emit v)) _
          (λ (a, b). write_entry-Appends k v a b (write-Appends k a) (write-Appends v b)) es)
        m m' h
  write-Appends (Ty.struct t) x m m' h =
      around-Appends Container.struct (signature_of t) (emit t x) (write bus t x)
        (write-Appends t x) m m' h
  write-Appends unit x m m' h = rw append-nil (ground arith)
  write-Appends (pair t u) (a, b) m m' h =
      Appends-bind (emit t a) (emit u b) (write bus t a) (write bus u b) (write-Appends t a)
        (write-Appends u b) m m' h

  -- A serialization that succeeds has appended the wire form of the value, and nothing else, for
  -- every type: basic values, variants, arrays on either path, dictionaries, structs and tuples.
  pub write-emit :
      (t : Ty) (x : Value t) (m : bus.Msg) {m' : bus.Msg}
      → write bus t x m ≡ ok m'
      → laws.written m' ≡ laws.written m ++ emit t x
  write-emit t x m {m'} h = write-Appends t x m m' h
