-- ===== src/Object/Dispatch.antt =====
-- Every member that was registered is found by the callbacks.
use sdbus_cpp.Prelude.{
  ℕ, String, Bool, true, Option, none, some, List, [], ◌∷◌, Result, ok, ◌≡◌, refl, ap, sym, ◌∙◌,
  subst, inl, inr, arith, All,
}
use sdbus_cpp.Handler.{BusError}
use sdbus_cpp.Object.Names.{Name}
use sdbus_cpp.Object.Search.{
  find_by_name, Contains, sort_by_name, sort_by_name-IsSorted, Contains-sort,
}
use sdbus_cpp.Object.Find.{find_by_name_sound, find_by_name_complete}
use sdbus_cpp.Object.Items.{
  MethodVTableItem, PropertyVTableItem, VTableItem, method, signal, property, interface_flags,
  MethodItem, PropertyItem, VTable,
}
use sdbus_cpp.Object.Register.{is_some, to_method_item, to_property_item, create_internal_vtable}
use sdbus_cpp.Object.Valid.{methods_of, properties_of, IsValid, create-inv}
use sdbus_cpp.Object.Callbacks.{
  find_method, find_property, reply_of, call_handler, sdbus_method_callback,
  sdbus_property_get_callback, read_property,
}

pub find_sorted :
    {A : Type 0} (name : A → Name) (xs : List A) (x : A)
    → Contains x xs
    → (y : A) × (find_by_name name (sort_by_name name xs) (name x) ≡ some y)
      × Contains y xs
      × (name y ≡ name x)
find_sorted name xs x h =
    let sorted = sort_by_name name xs in
    let (y, found) =
      find_by_name_complete name sorted (name x) x (sort_by_name-IsSorted name xs)
        ((Contains-sort name x xs).1 h) refl in
    let (at, same) = find_by_name_sound name sorted (name x) y found in
    (y, found, (Contains-sort name y xs).0 at, same)

module _ {H : Type 0} where
  Contains-methods_of :
      (x : MethodItem H) (xs : List (VTableItem H))
      → Contains x (methods_of xs)
      → (m : MethodVTableItem H) × Contains (method m) xs × (x ≡ to_method_item m)
  Contains-methods_of x [] h = absurd h
  Contains-methods_of x (method m ∷ xs) (inl e) = (m, inl refl, e)
  Contains-methods_of x (method m ∷ xs) (inr h) =
      let (m', at, e) = Contains-methods_of x xs h in (m', inr at, e)
  Contains-methods_of x (signal s ∷ xs) h =
      let (m', at, e) = Contains-methods_of x xs h in (m', inr at, e)
  Contains-methods_of x (property p ∷ xs) h =
      let (m', at, e) = Contains-methods_of x xs h in (m', inr at, e)
  Contains-methods_of x (interface_flags f ∷ xs) h =
      let (m', at, e) = Contains-methods_of x xs h in (m', inr at, e)

  methods_of-Contains :
      (m : MethodVTableItem H) (xs : List (VTableItem H))
      → Contains (method m) xs
      → Contains (to_method_item m) (methods_of xs)
  methods_of-Contains m [] h = absurd h
  methods_of-Contains m (method k ∷ xs) (inl e) = inl (ground arith)
  methods_of-Contains m (method k ∷ xs) (inr h) = inr (methods_of-Contains m xs h)
  methods_of-Contains m (_ ∷ xs) (inl e) = cc
  methods_of-Contains m (_ ∷ xs) (inr h) = methods_of-Contains m xs h

  pub Contains-properties_of :
      (x : PropertyItem H) (xs : List (VTableItem H))
      → Contains x (properties_of xs)
      → (p : PropertyVTableItem H) × Contains (property p) xs × (x ≡ to_property_item p)
  Contains-properties_of x [] h = absurd h
  Contains-properties_of x (property p ∷ xs) (inl e) = (p, inl refl, e)
  Contains-properties_of x (property p ∷ xs) (inr h) =
      let (p', at, e) = Contains-properties_of x xs h in (p', inr at, e)
  Contains-properties_of x (signal s ∷ xs) h =
      let (p', at, e) = Contains-properties_of x xs h in (p', inr at, e)
  Contains-properties_of x (method m ∷ xs) h =
      let (p', at, e) = Contains-properties_of x xs h in (p', inr at, e)
  Contains-properties_of x (interface_flags f ∷ xs) h =
      let (p', at, e) = Contains-properties_of x xs h in (p', inr at, e)

  pub properties_of-Contains :
      (p : PropertyVTableItem H) (xs : List (VTableItem H))
      → Contains (property p) xs
      → Contains (to_property_item p) (properties_of xs)
  properties_of-Contains p [] h = absurd h
  properties_of-Contains p (property k ∷ xs) (inl e) = inl (ground arith)
  properties_of-Contains p (property k ∷ xs) (inr h) = inr (properties_of-Contains p xs h)
  properties_of-Contains p (_ ∷ xs) (inl e) = cc
  properties_of-Contains p (_ ∷ xs) (inr h) = properties_of-Contains p xs h

  Contains-IsValid :
      (valid_member : Name → Bool) (x : VTableItem H) (xs : List (VTableItem H))
      → Contains x xs
      → All (IsValid valid_member) xs
      → IsValid valid_member x
  Contains-IsValid v x [] h all = absurd h
  Contains-IsValid v x (y ∷ xs) (inl e) all = subst (IsValid v) (sym e) all.0
  Contains-IsValid v x (y ∷ xs) (inr h) all = Contains-IsValid v x xs h all.1

  some_of_is_some : (o : Option H) → is_some o ≡ true → (h : H) × (o ≡ some h)
  some_of_is_some none e = cc
  some_of_is_some (some h) e = (h, refl)

-- Every registered method is found by its name, with a handler: itself, or another method that was
-- registered under the same name.
pub find_method_lem :
    {H : Type 0} (valid_member : Name → Bool) (interface : Name) (xs : List (VTableItem H))
    (t : VTable H) (m : MethodVTableItem H)
    → create_internal_vtable valid_member interface xs ≡ ok t
    → Contains (method m) xs
    → (k : MethodVTableItem H) × (h : H) × (y : MethodItem H) × Contains (method k) xs
      × (k.name ≡ m.name)
      × (k.callback_handler ≡ some h)
      × (find_method t m.name ≡ some y)
      × (y.callback ≡ some h)
unfolding find_method to_method_item
find_method_lem {H} valid_member interface xs t m made at =
    let (all, ms, _) = create-inv valid_member interface xs t made in
    let (y, found, within, same) =
      find_sorted (λ (m : MethodItem H). m.name) (methods_of xs) (to_method_item m)
        (methods_of-Contains m xs at) in
    let (k, kin, e) = Contains-methods_of y xs within in
    let (h, hk) =
      some_of_is_some k.callback_handler (Contains-IsValid valid_member (method k) xs kin all).1 in
    let named : k.name ≡ m.name = ap (λ (z : MethodItem H). z.name) (sym e) ∙ same in
    let handled : y.callback ≡ some h = ap (λ (z : MethodItem H). z.callback) e ∙ hk in
    (k, h, y, kin, named, hk, rw ms found, handled)

module _ {H : Type 0} (set_errno : ℕ → Option BusError) (append : String → String → String)
    (run : H → Result (Unit {0})) (valid_member : Name → Bool) where
  -- When libsystemd calls back with the name of a registered method, the callback finds a registered
  -- method of that name, runs its handler and returns what the handler's outcome asks for. No
  -- assertion fails, whatever the order and the number of the items.
  pub sdbus_method_callback_lem :
      (interface : Name) (xs : List (VTableItem H)) (t : VTable H) (m : MethodVTableItem H)
      → create_internal_vtable valid_member interface xs ≡ ok t
      → Contains (method m) xs
      → (k : MethodVTableItem H) × (h : H) × Contains (method k) xs
        × (k.name ≡ m.name)
        × (k.callback_handler ≡ some h)
        × (sdbus_method_callback set_errno append run t m.name
            ≡ some (reply_of set_errno append run h))
  unfolding sdbus_method_callback
  sdbus_method_callback_lem interface xs t m made at =
      let (k, h, y, kin, named, hk, found, handled) =
        find_method_lem valid_member interface xs t m made at in
      (k, h, kin, named, hk, rw (sdbus_method_callback, found, handled, call_handler) refl)

  get_found :
      (t : VTable H) (n : Name) (y : PropertyItem H)
      → find_by_name (λ (p : PropertyItem H). p.name) t.properties n ≡ some y
      → sdbus_property_get_callback set_errno append run t n
        ≡ some (read_property set_errno append run y.get_callback)
  unfolding sdbus_property_get_callback find_property
  get_found t n y found = rw (sdbus_property_get_callback, find_property, found) refl

  -- When libsystemd asks for a registered property, the callback answers for a registered property of
  -- that name: by its getter, or, where it has none, that it is write-only.
  pub sdbus_property_get_callback_lem :
      (interface : Name) (xs : List (VTableItem H)) (t : VTable H) (p : PropertyVTableItem H)
      → create_internal_vtable valid_member interface xs ≡ ok t
      → Contains (property p) xs
      → (k : PropertyVTableItem H) × Contains (property k) xs
        × (k.name ≡ p.name)
        × (sdbus_property_get_callback set_errno append run t p.name
            ≡ some (read_property set_errno append run k.getter))
  unfolding to_property_item
  sdbus_property_get_callback_lem interface xs t p made at =
      let (all, _, ps) = create-inv valid_member interface xs t made in
      let (y, found, within, same) =
        find_sorted (λ (p : PropertyItem H). p.name) (properties_of xs) (to_property_item p)
          (properties_of-Contains p xs at) in
      let (k, kin, e) = Contains-properties_of y xs within in
      let named : k.name ≡ p.name = ap (λ (z : PropertyItem H). z.name) (sym e) ∙ same in
      let get : y.get_callback ≡ k.getter = ap (λ (z : PropertyItem H). z.get_callback) e in
      (
        k,
        kin,
        named,
        get_found t p.name y (rw ps found)
            ∙ ap (λ g. some (read_property set_errno append run g)) get,
      )
