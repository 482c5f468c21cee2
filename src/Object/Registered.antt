-- ===== src/Object/Registered.antt =====
-- A property whose name no other property of the object has.
use sdbus_cpp.Prelude.{Bool, some, List, ok, ◌≡◌, ap, sym, ◌∙◌, subst}
use sdbus_cpp.Flags.{VtableBits}
use sdbus_cpp.Object.Names.{Name}
use sdbus_cpp.Object.Search.{Contains, sort_by_name, Contains-sort}
use sdbus_cpp.Object.Items.{PropertyVTableItem, VTableItem, property, PropertyItem, VTable}
use sdbus_cpp.Object.Register.{
  to_property_item, property_to_entry, create_internal_vtable, create_internal_sd_bus_vtable,
}
use sdbus_cpp.Object.Valid.{properties_of, create-inv}
use sdbus_cpp.Object.Callbacks.{find_property}
use sdbus_cpp.Object.Entries.{IsOnly, create_internal_sd_bus_vtable-IsOnly}
use sdbus_cpp.Object.Dispatch.{find_sorted, Contains-properties_of, properties_of-Contains}

module _ {H : Type 0} (valid_member : Name → Bool) (interface : Name) (xs : List (VTableItem H))
    (t : VTable H) (p : PropertyVTableItem H)
    (made : create_internal_vtable valid_member interface xs ≡ ok t) (at : Contains (property p) xs)
    (only : (k : PropertyVTableItem H) → Contains (property k) xs → k.name ≡ p.name → k ≡ p) where
  abbrev named_by : PropertyItem H → Name
  named_by y = y.name

  sorted : t.properties ≡ sort_by_name named_by (properties_of xs)
  sorted = (create-inv valid_member interface xs t made).2

  is_the_item :
      (y : PropertyItem H)
      → Contains y (properties_of xs)
      → y.name ≡ p.name
      → y ≡ to_property_item p
  unfolding to_property_item
  is_the_item y within same =
      let (k, kin, e) = Contains-properties_of y xs within in
      e ∙ ap to_property_item (only k kin (ap named_by (sym e) ∙ same))

  -- The callbacks find it.
  pub find_property-item : find_property t p.name ≡ some (to_property_item p)
  unfolding find_property to_property_item
  find_property-item =
      let (y, found, within, same) =
        find_sorted named_by (properties_of xs) (to_property_item p)
          (properties_of-Contains p xs at) in
      rw (find_property, sorted, found) (ap some (is_the_item y within same))

  -- And libsystemd finds its entry.
  pub entry-IsOnly :
      (bits : VtableBits)
      → IsOnly p.name p.signature
          (property_to_entry bits (to_property_item p))
          (create_internal_sd_bus_vtable bits t)
  unfolding to_property_item
  entry-IsOnly bits =
      create_internal_sd_bus_vtable-IsOnly bits t (to_property_item p)
        (subst (Contains (to_property_item p)) (sym sorted) (
          (Contains-sort named_by (to_property_item p) (properties_of xs)).1
            (properties_of-Contains p xs at)))
        (λ y within same.
          is_the_item y
            ((Contains-sort named_by y (properties_of xs)).0 (subst (Contains y) sorted within))
            same)
