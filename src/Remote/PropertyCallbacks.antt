-- ===== src/Remote/PropertyCallbacks.antt =====
-- What the property callbacks do with a handler that withGetter or withSetter made.
use sdbus_cpp.Prelude.{
  ℕ, pos, negsuc, String, false, Option, none, some, Result, ok, throw, Exception, ◌>>=◌, ◌≡◌, refl,
}
use sdbus_cpp.Handler.{BusError, catch_errors}
use sdbus_cpp.Message.Types.{Ty, Value, default_value}
use sdbus_cpp.Message.Api.{SdBusMessage}
use sdbus_cpp.Message.Write.{write}
use sdbus_cpp.Message.Reader.{Reader}
use sdbus_cpp.Message.Read.{read}
use sdbus_cpp.Object.Names.{Name}
use sdbus_cpp.Object.Items.{PropertyItem, VTable}
use sdbus_cpp.Object.Callbacks.{find_property}
use sdbus_cpp.Remote.Property.{
  PropertyHandler, gets, sets, fill_reply, take_value, run_getter, run_setter, got,
  property_get_callback, property_set_callback,
}

module _ (bus : SdBusMessage) (S : Type 0) (set_errno : ℕ → Option BusError)
    (append : String → String → String) (t : Ty) where
  pub run_getter-ok :
      (g : S → Result (Value t) × S) (s s' : S) (x : Value t) (reply m : bus.Msg)
      → g s ≡ (ok x, s')
      → write bus t x reply ≡ ok m
      → run_getter bus S set_errno append (some (gets (fill_reply bus S t g))) s reply
        ≡ some ((pos 1, none, some m), s')
  unfolding run_getter fill_reply got catch_errors
  run_getter-ok g s s' x reply m e written =
      rw (run_getter, fill_reply, e, ◌>>=◌, written, got) refl

  pub run_getter-throw :
      (g : S → Result (Value t) × S) (s s' : S) (ex : Exception) (error : BusError)
      (reply : bus.Msg)
      → g s ≡ (throw ex, s')
      → catch_errors set_errno append (throw ex) ≡ (false, some error)
      → run_getter bus S set_errno append (some (gets (fill_reply bus S t g))) s reply
        ≡ some ((negsuc 0, some error, none), s')
  unfolding run_getter fill_reply got
  run_getter-throw g s s' ex error reply e caught =
      rw (run_getter, fill_reply, e, ◌>>=◌, got, caught) refl

  pub run_setter-ok :
      (fuel : ℕ) (h : Value t → S → Result (Unit {0}) × S) (s s' : S) (x : Value t)
      (call rest : Reader bus) (u : Unit {0})
      → read bus t fuel (default_value t) call ≡ ok (x, rest)
      → h x s ≡ (ok u, s')
      → run_setter bus S set_errno append (some (sets (take_value bus S t fuel h))) s call
        ≡ some ((pos 1, none), s')
  unfolding run_setter take_value catch_errors
  run_setter-ok fuel h s s' x call rest u arrived e =
      rw (run_setter, take_value, arrived, e, catch_errors) refl

  pub run_setter-throw :
      (fuel : ℕ) (h : Value t → S → Result (Unit {0}) × S) (s s' : S) (x : Value t)
      (call rest : Reader bus) (ex : Exception) (error : BusError)
      → read bus t fuel (default_value t) call ≡ ok (x, rest)
      → h x s ≡ (throw ex, s')
      → catch_errors set_errno append (throw ex) ≡ (false, some error)
      → run_setter bus S set_errno append (some (sets (take_value bus S t fuel h))) s call
        ≡ some ((negsuc 0, some error), s')
  unfolding run_setter take_value
  run_setter-throw fuel h s s' x call rest ex error arrived e caught =
      rw (run_setter, take_value, arrived, e, caught) refl

  pub get_found :
      (v : VTable (PropertyHandler bus S)) (n : Name) (y : PropertyItem (PropertyHandler bus S))
      (s : S) (reply : bus.Msg)
      → find_property v n ≡ some y
      → property_get_callback bus S set_errno append v n s reply
        ≡ run_getter bus S set_errno append y.get_callback s reply
  unfolding property_get_callback
  get_found v n y s reply found = rw (property_get_callback, found) refl

  pub set_found :
      (v : VTable (PropertyHandler bus S)) (n : Name) (y : PropertyItem (PropertyHandler bus S))
      (s : S) (call : Reader bus)
      → find_property v n ≡ some y
      → property_set_callback bus S set_errno append v n s call
        ≡ run_setter bus S set_errno append y.set_callback s call
  unfolding property_set_callback
  set_found v n y s call found = rw (property_set_callback, found) refl
