-- ===== src/Object/Entries.antt =====
-- The entries for libsystemd that stand for properties.
use sdbus_cpp.Prelude.{
  true, Option, none, some, some-cancel, List, [], ◌∷◌, ◌++◌, map, ◌≡◌, refl, sym, ap, ◌∙◌, ◌⊎◌,
  inl, inr, Bool-cases,
}
use sdbus_cpp.Flags.{VtableBits, to_sd_bus_writable_property_flags}
use sdbus_cpp.Object.Names.{Name}
use sdbus_cpp.Object.Search.{Contains}
use sdbus_cpp.Object.Items.{
  PropertyItem, VTable, SdBusEntry, read_only_property, writable_property, end,
}
use sdbus_cpp.Object.Register.{
  is_some, signal_to_entry, method_to_entry, property_to_entry, create_internal_sd_bus_vtable,
}

-- The name and the signature of an entry for a property.
abbrev pub described : SdBusEntry → Option (Name × Name)
described (read_only_property n s w) = some (n, s)
described (writable_property n s w) = some (n, s)
described _ = none

-- The entry is among those for that property, and so is no other of the name.
abbrev pub IsOnly : Name → Name → SdBusEntry → List SdBusEntry → Type 0
IsOnly n s e es =
    Contains e es
    × (described e ≡ some (n, s))
    × ((e' : SdBusEntry) (s' : Name) → Contains e' es → described e' ≡ some (n, s') → e' ≡ e)

Contains-append :
    {A : Type 0} (a : A) (xs ys : List A)
    → (Contains a (xs ++ ys) → Contains a xs ⊎ Contains a ys)
      × (Contains a xs ⊎ Contains a ys → Contains a (xs ++ ys))
Contains-append a [] ys = ((λ h. inr h), λ h. elim h [ inl k ↦ absurd k | inr k ↦ k ])
Contains-append a (x ∷ xs) ys = (
  (λ h. elim h [
    | inl e ↦ inl (inl e)
    | inr k ↦ elim ((Contains-append a xs ys).0 k) [ inl m ↦ inl (inr m) | inr m ↦ inr m ]
  ]),
  (λ h. elim h [
    | inl k ↦ elim k [ inl e ↦ inl e | inr m ↦ inr ((Contains-append a xs ys).1 (inl m)) ]
    | inr k ↦ inr ((Contains-append a xs ys).1 (inr k))
  ]),
)

Contains-map :
    {A B : Type 0} (f : A → B) (b : B) (xs : List A)
    → Contains b (map f xs)
    → (a : A) × Contains a xs × (b ≡ f a)
Contains-map f b [] h = absurd h
Contains-map f b (x ∷ xs) (inl e) = (x, inl refl, e)
Contains-map f b (x ∷ xs) (inr h) = let (a, at, e) = Contains-map f b xs h in (a, inr at, e)

map-Contains :
    {A B : Type 0} (f : A → B) (a : A) (xs : List A) → Contains a xs → Contains (f a) (map f xs)
map-Contains f a [] h = absurd h
map-Contains f a (x ∷ xs) (inl e) = inl (ap f e)
map-Contains f a (x ∷ xs) (inr h) = inr (map-Contains f a xs h)

undescribed :
    {X : Type 0} (e e' : SdBusEntry) (d : Name × Name)
    → e ≡ e'
    → described e' ≡ none
    → described e ≡ some d
    → X
undescribed e e' d same nothing named =
    let bad : none ≡ some d = sym nothing ∙ ap described (sym same) ∙ named in cc

module _ {H : Type 0} (bits : VtableBits) where
  pub property_to_entry-described :
      (p : PropertyItem H) → described (property_to_entry bits p) ≡ some (p.name, p.signature)
  unfolding property_to_entry
  property_to_entry-described p = elim (Bool-cases (is_some p.set_callback)) [
    | inl e ↦ rw (property_to_entry, e) refl
    | inr e ↦ rw (property_to_entry, e) refl
  ]

  pub property_to_entry-writable :
      (p : PropertyItem H)
      → is_some p.set_callback ≡ true
      → property_to_entry bits p
        ≡ writable_property p.name p.signature (to_sd_bus_writable_property_flags bits p.flags)
  unfolding property_to_entry
  property_to_entry-writable p h = rw (property_to_entry, h) refl

  -- An entry for a property is that of a property of the vtable.
  entries-properties :
      (t : VTable H) (e : SdBusEntry) (d : Name × Name)
      → Contains e (create_internal_sd_bus_vtable bits t)
      → described e ≡ some d
      → (y : PropertyItem H) × Contains y t.properties × (e ≡ property_to_entry bits y)
  unfolding create_internal_sd_bus_vtable method_to_entry signal_to_entry
  entries-properties t e d (inl first) named = cc
  entries-properties t e d (inr h) named =
      elim ((Contains-append e (map (method_to_entry bits) t.methods) _).0 h) [
        | inl k ↦
            let (m, at, same) = Contains-map (method_to_entry bits) e t.methods k in
            undescribed e (method_to_entry bits m) d same refl named
        | inr k ↦ elim ((Contains-append e (map (signal_to_entry bits) t.signals) _).0 k) [
          | inl k ↦
              let (m, at, same) = Contains-map (signal_to_entry bits) e t.signals k in
              undescribed e (signal_to_entry bits m) d same refl named
          | inr k ↦ elim ((Contains-append e (map (property_to_entry bits) t.properties) _).0 k) [
            | inl k ↦ Contains-map (property_to_entry bits) e t.properties k
            | inr k ↦ elim k [
              | inl same ↦ undescribed e end d same refl named
              | inr none_left ↦ absurd none_left
            ]
          ]
        ]
      ]

  properties-entries :
      (t : VTable H) (y : PropertyItem H)
      → Contains y t.properties
      → Contains (property_to_entry bits y) (create_internal_sd_bus_vtable bits t)
  unfolding create_internal_sd_bus_vtable
  properties-entries t y h =
      let e = property_to_entry bits y in
      inr (
        (Contains-append e (map (method_to_entry bits) t.methods) _).1 (
          inr (
            (Contains-append e (map (signal_to_entry bits) t.signals) _).1 (
              inr (
                (Contains-append e (map (property_to_entry bits) t.properties) _).1
                  (inl (map-Contains (property_to_entry bits) y t.properties h)))))))

  -- The entry of a property whose name no other property has.
  pub create_internal_sd_bus_vtable-IsOnly :
      (t : VTable H) (y : PropertyItem H)
      → Contains y t.properties
      → ((y' : PropertyItem H) → Contains y' t.properties → y'.name ≡ y.name → y' ≡ y)
      → IsOnly y.name y.signature (property_to_entry bits y) (create_internal_sd_bus_vtable bits t)
  create_internal_sd_bus_vtable-IsOnly t y at only = (
    properties-entries t y at,
    property_to_entry-described y,
    λ e' s' at' named.
        let (y', within, same) = entries-properties t e' (y.name, s') at' named in
        let name_same : y'.name ≡ y.name =
          ap (λ d. d.0)
            (some-cancel
              (sym (property_to_entry-described y') ∙ ap described (sym same) ∙ named)) in
        same ∙ ap (property_to_entry bits) (only y' within name_same),
  )
