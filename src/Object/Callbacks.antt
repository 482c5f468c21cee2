-- ===== src/Object/Callbacks.antt =====
-- What libsystemd calls: the static callbacks of src/Object.cpp. `none` is a failed assertion: the
-- vtable has no such member, or the member has no handler.
use sdbus_cpp.Prelude.{ℕ, ℤ, pos, negsuc, String, Option, none, some, Result, if◌then◌else◌}
use sdbus_cpp.Handler.{BusError, catch_errors}
use sdbus_cpp.Object.Names.{Name}
use sdbus_cpp.Object.Search.{find_by_name}
use sdbus_cpp.Object.Items.{MethodItem, PropertyItem, VTable}

module _ {H : Type 0} where
  -- Object::findMethod and Object::findProperty
  unfoldable pub find_method : VTable H → Name → Option (MethodItem H)
  unfolding find_by_name
  find_method t n = find_by_name (λ (m : MethodItem H). m.name) t.methods n

  unfoldable pub find_property : VTable H → Name → Option (PropertyItem H)
  unfolding find_by_name
  find_property t n = find_by_name (λ (p : PropertyItem H). p.name) t.properties n

module _ {H : Type 0} (set_errno : ℕ → Option BusError) (append : String → String → String)
    (run : H → Result (Unit {0})) where
  -- The handler runs; the callback returns 1, or -1 with the error set.
  unfoldable pub reply_of : H → ℤ × Option BusError
  unfolding catch_errors
  reply_of h =
      let (done, e) = catch_errors set_errno append (run h) in (if done then pos 1 else negsuc 0, e)

  unfoldable pub call_handler : Option H → Option (ℤ × Option BusError)
  unfolding reply_of
  call_handler none = none
  call_handler (some h) = some (reply_of h)

  unfoldable pub sdbus_method_callback : VTable H → Name → Option (ℤ × Option BusError)
  unfolding find_method call_handler
  sdbus_method_callback t member = elim (find_method t member) [
    | none ↦ none
    | some m ↦ call_handler m.callback
  ]

  unfoldable pub write_only : BusError
  write_only = record {
    name = "org.freedesktop.DBus.Error.Failed";
    message = some "Cannot read property as it is write-only";
  }

  -- A property without a getter is write-only: the error is set, and the result is still 1.
  unfoldable pub read_property : Option H → ℤ × Option BusError
  unfolding write_only reply_of
  read_property none = (pos 1, some write_only)
  read_property (some h) = reply_of h

  unfoldable pub sdbus_property_get_callback : VTable H → Name → Option (ℤ × Option BusError)
  unfolding find_property read_property
  sdbus_property_get_callback t property = elim (find_property t property) [
    | none ↦ none
    | some p ↦ some (read_property p.get_callback)
  ]

  unfoldable pub sdbus_property_set_callback : VTable H → Name → Option (ℤ × Option BusError)
  unfolding find_property call_handler
  sdbus_property_set_callback t property = elim (find_property t property) [
    | none ↦ none
    | some p ↦ call_handler p.set_callback
  ]
