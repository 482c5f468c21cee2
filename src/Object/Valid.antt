-- ===== src/Object/Valid.antt =====
-- What registration accepts, and the internal vtable that it makes.
use sdbus_cpp.Prelude.{
  Bool, true, List, [], ◌∷◌, ◌++◌, ok, ◌>>=◌, >>=-eq-ok, ◌≡◌, refl, ap, sym, ◌∙◌, ◌⊎◌, inl, inr,
  ◌↔◌, append_assoc, append-nil, arith, All,
}
use sdbus_cpp.Object.Names.{Name}
use sdbus_cpp.Object.Search.{sort_by_name}
use sdbus_cpp.Object.Items.{
  VTableItem, method, signal, property, interface_flags, MethodItem, PropertyItem, VTable,
}
use sdbus_cpp.Object.Register.{
  is_some, to_method_item, to_signal_item, to_property_item, write_record, write_records,
  sort_records, empty_vtable, create_internal_vtable,
}

module _ {H : Type 0} where
  -- The internal records of the methods and the properties among the items, in order.
  abbrev pub methods_of : List (VTableItem H) → List (MethodItem H)
  methods_of [] = []
  methods_of (method m ∷ xs) = to_method_item m ∷ methods_of xs
  methods_of (_ ∷ xs) = methods_of xs

  abbrev pub properties_of : List (VTableItem H) → List (PropertyItem H)
  properties_of [] = []
  properties_of (property p ∷ xs) = to_property_item p ∷ properties_of xs
  properties_of (_ ∷ xs) = properties_of xs

  methods_of-cons :
      (x : VTableItem H) (xs : List (VTableItem H))
      → methods_of (x ∷ xs) ≡ methods_of (x ∷ []) ++ methods_of xs
  methods_of-cons (method m) xs = refl
  methods_of-cons _ xs = refl

  properties_of-cons :
      (x : VTableItem H) (xs : List (VTableItem H))
      → properties_of (x ∷ xs) ≡ properties_of (x ∷ []) ++ properties_of xs
  properties_of-cons (property p) xs = refl
  properties_of-cons _ xs = refl

module _ {H : Type 0} (valid_member : Name → Bool) where
  -- What registration asks of an item: a valid name, and a handler.
  abbrev pub IsValid : VTableItem H → Type 0
  IsValid (method m) = (valid_member m.name ≡ true) × (is_some m.callback_handler ≡ true)
  IsValid (signal s) = valid_member s.name ≡ true
  IsValid (property p) =
      (valid_member p.name ≡ true) × ((is_some p.getter ≡ true) ⊎ (is_some p.setter ≡ true))
  IsValid (interface_flags f) = Unit

  write_record-inv :
      (x : VTableItem H) (t t' : VTable H)
      → write_record valid_member x t ≡ ok t'
      → IsValid x
        × (t'.methods ≡ t.methods ++ methods_of (x ∷ []))
        × (t'.properties ≡ t.properties ++ properties_of (x ∷ []))
  unfolding write_record
  write_record-inv (method m) t t' h = ground (arith, append-nil t.properties)
  write_record-inv (signal s) t t' h = ground (arith, append-nil t.methods, append-nil t.properties)
  write_record-inv (property p) t t' h = ground (arith, append-nil t.methods)
  write_record-inv (interface_flags f) t t' h =
      ground (arith, append-nil t.methods, append-nil t.properties)

  write_records-inv :
      (xs : List (VTableItem H)) (t t' : VTable H)
      → write_records valid_member xs t ≡ ok t'
      → All IsValid xs
        × (t'.methods ≡ t.methods ++ methods_of xs)
        × (t'.properties ≡ t.properties ++ properties_of xs)
  unfolding write_records
  write_records-inv [] t t' h = ground (arith, append-nil t.methods, append-nil t.properties)
  write_records-inv (x ∷ xs) t t' h =
      let (t₁, e₁, e₂) =
        >>=-eq-ok (write_record valid_member x t) (write_records valid_member xs) h in
      let (valid, ms, ps) = write_record-inv x t t₁ e₁ in
      let (all, ms', ps') = write_records-inv xs t₁ t' e₂ in
      (
        (valid, all),
        ms'
            ∙ ap (λ ys. ys ++ methods_of xs) ms
            ∙ append_assoc t.methods _ (methods_of xs)
            ∙ ap (λ ys. t.methods ++ ys) (sym (methods_of-cons x xs)),
        ps'
            ∙ ap (λ ys. ys ++ properties_of xs) ps
            ∙ append_assoc t.properties _ (properties_of xs)
            ∙ ap (λ ys. t.properties ++ ys) (sym (properties_of-cons x xs)),
      )

  pub create-inv :
      (interface : Name) (xs : List (VTableItem H)) (t : VTable H)
      → create_internal_vtable valid_member interface xs ≡ ok t
      → All IsValid xs
        × (t.methods ≡ sort_by_name (λ (m : MethodItem H). m.name) (methods_of xs))
        × (t.properties ≡ sort_by_name (λ (p : PropertyItem H). p.name) (properties_of xs))
  unfolding create_internal_vtable
  create-inv interface xs t h =
      let (t₁, e₁, e₂) =
        >>=-eq-ok (write_records valid_member xs (empty_vtable valid_member interface)) _ h in
      let (all, ms, ps) = write_records-inv xs (empty_vtable valid_member interface) t₁ e₁ in
      let same : sort_records valid_member t₁ ≡ t = ground arith in
      (
        all,
        ap (λ (u : VTable H). u.methods) (sym same) ∙ ap (sort_by_name _) ms,
        ap (λ (u : VTable H). u.properties) (sym same) ∙ ap (sort_by_name _) ps,
      )

  write_record-ok :
      (x : VTableItem H) (t : VTable H)
      → IsValid x
      → (t' : VTable H) × (write_record valid_member x t ≡ ok t')
  unfolding write_record
  write_record-ok (method m) t v =
      (record t { methods = t.methods ++ to_method_item m ∷ [] }, ground arith)
  write_record-ok (signal s) t v =
      (record t { signals = t.signals ++ to_signal_item s ∷ [] }, ground arith)
  write_record-ok (property p) t (v, inl g) =
      (record t { properties = t.properties ++ to_property_item p ∷ [] }, ground arith)
  write_record-ok (property p) t (v, inr g) =
      (record t { properties = t.properties ++ to_property_item p ∷ [] }, ground arith)
  write_record-ok (interface_flags f) t v = (record t { flags = f }, refl)

  write_records-ok :
      (xs : List (VTableItem H)) (t : VTable H)
      → All IsValid xs
      → (t' : VTable H) × (write_records valid_member xs t ≡ ok t')
  unfolding write_records
  write_records-ok [] t all = (t, refl)
  write_records-ok (x ∷ xs) t all =
      let (t₁, e₁) = write_record-ok x t all.0 in
      let (t₂, e₂) = write_records-ok xs t₁ all.1 in (t₂, rw (e₁, ◌>>=◌, e₂))

  -- The internal vtable is made exactly when every item is valid: members have valid names, methods
  -- have a handler, and properties a getter or a setter.
  pub create-eq-ok_iff :
      (interface : Name) (xs : List (VTableItem H))
      → ((t : VTable H) × (create_internal_vtable valid_member interface xs ≡ ok t))
        ↔ All IsValid xs
  unfolding create_internal_vtable
  create-eq-ok_iff interface xs = (
    (λ (t, e). (create-inv interface xs t e).0),
    λ all.
        let (t, e) = write_records-ok xs (empty_vtable valid_member interface) all in
        (sort_records valid_member t, rw (e, ◌>>=◌)),
  )
