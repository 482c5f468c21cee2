-- ===== src/Remote/Tests.antt =====
-- A service with a method that divides, called over a bus of tokens.
use sdbus_cpp.Prelude.{
  zero, suc, negsuc, ◌/◌, Bool, true, Option, none, some, List, [], ◌∷◌, Result, ok, throw, error,
  errno_error, unknown_exception, out_of_fuel, false, ◌>>=◌, ◌≢◌, ◌≡◌, refl, ap, some-cancel, inl,
  inr,
}
use sdbus_cpp.Flags.{default_flags}
use sdbus_cpp.Handler.{BusError}
use sdbus_cpp.Message.Types.{
  Ty, basic, uint32, string, item, text, num, unit, pair, Value, default_value,
}
use sdbus_cpp.Message.TokenBus.{read_item, token_bus, token_append, token_read}
use sdbus_cpp.Object.Names.{Name}
use sdbus_cpp.Object.Search.{Contains}
use sdbus_cpp.Object.Items.{
  MethodVTableItem, VTableItem, method, signal, property, interface_flags, VTable,
}
use sdbus_cpp.Object.Register.{create_internal_vtable}
use sdbus_cpp.Object.Valid.{create-eq-ok_iff}
use sdbus_cpp.Remote.Tokens.{tokens, tokens_laws, no_errno, first_text}
use sdbus_cpp.Message.Write.{write}
use sdbus_cpp.Message.Read.{read}
use sdbus_cpp.Message.Reader.{Reader}
use sdbus_cpp.Remote.Async.{
  Completion, return_results, return_error, implemented_as_async, get_result_as_future, Invocation,
  with_results, with_error,
}
use sdbus_cpp.Remote.AsyncCall.{result_of, get_result_as_future_lem, get_result_as_future-result_of}
use sdbus_cpp.Remote.Service.{Answer, replied, Handler, implemented_as, serve}
use sdbus_cpp.Remote.Client.{store_results_to}
use sdbus_cpp.Remote.Signal.{signal_with_arguments}
use sdbus_cpp.Remote.SignalSound.{arrive, invoked_with, signal_lem, unreadable_lem}
use sdbus_cpp.Remote.Call.{on_bus, as_sent, store_results_to_lem}

abbrev two_numbers : Ty
two_numbers = pair (basic uint32) (pair (basic uint32) unit)

abbrev divide : Value two_numbers → Result (Value (basic uint32))
divide (a, (zero, end)) = throw (error "org.example.Error" "division by zero")
divide (a, (suc b, end)) = ok (a / suc b)

abbrev division_by : Handler token_bus tokens → MethodVTableItem (Handler token_bus tokens)
division_by h = record {
  name = 100 ∷ [];
  input_signature = [];
  input_param_names = [];
  output_signature = [];
  output_param_names = [];
  callback_handler = some h;
  flags = default_flags;
}

abbrev division_items : Handler token_bus tokens → List (VTableItem (Handler token_bus tokens))
division_items h = method (division_by h) ∷ []

abbrev any_name : Name → Bool
any_name n = true

abbrev made :
    (h : Handler token_bus tokens)
    → (t : VTable (Handler token_bus tokens)) × (create_internal_vtable any_name []
          (division_items h)
        ≡ ok t)
made h = (create-eq-ok_iff any_name [] (division_items h)).1 ((refl, refl), tt)

abbrev method_of : {H : Type 0} → VTableItem H → Option (MethodVTableItem H)
method_of (method m) = some m
method_of (signal s) = none
method_of (property p) = none
method_of (interface_flags f) = none

only_division :
    (h : Handler token_bus tokens) (k : MethodVTableItem (Handler token_bus tokens))
    → Contains (method k) (division_items h)
    → k.name ≡ (division_by h).name
    → k ≡ division_by h
only_division h k (inl e) named = some-cancel (ap method_of e)
only_division h k (inr none_left) named = absurd none_left

abbrev at_once : Handler token_bus tokens
at_once = implemented_as token_bus tokens two_numbers (basic uint32) 9 divide

-- 7 / 2 over the bus.
store_results_to_example :
    store_results_to token_bus tokens two_numbers
      (basic uint32)
      9
      unknown_exception
      (serve token_bus tokens no_errno first_text (made at_once).0 (division_by at_once).name)
      (7, (2, tt))
    ≡ (as_sent token_bus tokens two_numbers (7, (2, tt)) >>= λ x.
        on_bus no_errno first_text
          (divide (7, (2, tt)) >>= as_sent token_bus tokens (basic uint32)))
store_results_to_example =
    store_results_to_lem token_bus token_append token_read tokens tokens_laws no_errno first_text
      unknown_exception two_numbers (basic uint32) 9 divide any_name [] (division_items at_once)
      (made at_once).0 (division_by at_once) (7, (2, tt)) (made at_once).1 (inl refl) refl
      (only_division at_once) (tt, (tt, tt)) (λ r e. tt)

abbrev divide_later : Value two_numbers → Completion (basic uint32)
divide_later (a, (zero, end)) = return_error "org.example.Error" "division by zero"
divide_later (a, (suc b, end)) = return_results (a / suc b)

abbrev later : Handler token_bus tokens
later = implemented_as_async token_bus tokens two_numbers (basic uint32) 9 divide_later

abbrev no_reply : BusError
no_reply = record { name = "org.freedesktop.DBus.Error.NoReply"; message = none }

abbrev dividing : Reader token_bus → Answer token_bus
dividing = serve token_bus tokens no_errno first_text (made later).0 (division_by later).name

-- The message of the call 7 / 0.
abbrev zero_message : token_bus.Msg
zero_message = ([], item uint32 (num 7) ∷ item uint32 (num 0) ∷ [])

zero_written : write token_bus two_numbers (7, (0, tt)) ([], []) ≡ ok zero_message
unfolding write
zero_written = refl

get_result_as_future-result_of_example :
    (get_result_as_future token_bus tokens two_numbers
        (basic uint32)
        9
        no_reply
        dividing
        (7, (0, tt))
      >>= λ future. future)
    ≡ result_of (divide_later (7, (0, tt)))
get_result_as_future-result_of_example =
    get_result_as_future-result_of token_bus token_append token_read tokens tokens_laws no_errno
      first_text unknown_exception no_reply two_numbers (basic uint32) 9 divide_later any_name []
      (division_items later) (made later).0 (division_by later) (7, (0, tt)) zero_message
      (made later).1 (inl refl) refl (only_division later) (tt, (tt, tt)) zero_written
      (λ r e. absurd (cc e))

-- A service whose reply holds a text where the client reads a number.
abbrev confused : Reader token_bus → Answer token_bus
confused call = replied ([], item string (text "three") ∷ [])

confused_throws :
    store_results_to token_bus tokens two_numbers
      (basic uint32)
      9
      unknown_exception
      confused
      (7, (2, tt))
    ≡ throw (errno_error 6 "Failed to deserialize a uint32_t value")
unfolding store_results_to write read read_item
confused_throws = refl

confused_enough :
    store_results_to token_bus tokens two_numbers
      (basic uint32)
      9
      unknown_exception
      confused
      (7, (2, tt))
    ≢ throw out_of_fuel
confused_enough e = cc (confused_throws, e)

get_result_as_future_example :
    (get_result_as_future token_bus tokens two_numbers
        (basic uint32)
        9
        no_reply
        confused
        (7, (2, tt))
      >>= λ future. future)
    ≡ store_results_to token_bus tokens two_numbers
        (basic uint32)
        9
        unknown_exception
        confused
        (7, (2, tt))
get_result_as_future_example =
    get_result_as_future_lem token_bus tokens two_numbers (basic uint32) 9 unknown_exception
      no_reply confused (7, (2, tt)) (λ m written e. cc) confused_enough

-- A subscriber whose callback throws.
abbrev refuses : Invocation two_numbers → Result (Unit {0})
refuses i = throw (error "org.example.Error" "refused")

abbrev numbers_message : token_bus.Msg
numbers_message = ([], item uint32 (num 7) ∷ item uint32 (num 2) ∷ [])

numbers_written :
    signal_with_arguments token_bus tokens two_numbers (7, (2, tt)) ≡ ok numbers_message
unfolding signal_with_arguments write
numbers_written = refl

signal_example :
    arrive token_bus tokens no_errno first_text two_numbers refuses 9 false
      (record { msg = numbers_message; valid = true })
    ≡ invoked_with token_bus tokens no_errno first_text two_numbers refuses 9
        (with_results (7, (2, tt)))
signal_example =
    signal_lem token_bus token_append token_read tokens tokens_laws no_errno first_text two_numbers
      refuses 9 (7, (2, tt)) false numbers_message (tt, (tt, tt)) numbers_written

-- A signal with a text where the subscriber reads a number.
abbrev text_signal : Reader token_bus
text_signal = record { msg = ([], item string (text "three") ∷ []); valid = true }

text_unread :
    read token_bus two_numbers 9 (default_value two_numbers) text_signal
    ≡ throw (errno_error 6 "Failed to deserialize a uint32_t value")
unfolding read read_item default_value
text_unread = refl

number_failure : errno_error 6 "Failed to deserialize a uint32_t value" ≢ out_of_fuel
number_failure e = cc e

unreadable_example :
    (arrive token_bus tokens no_errno first_text two_numbers refuses 9 true text_signal
      ≡ invoked_with token_bus tokens no_errno first_text two_numbers refuses 9
          (with_error (errno_error 6 "Failed to deserialize a uint32_t value")))
    × ((arrive token_bus tokens no_errno first_text two_numbers refuses 9 false text_signal).invoked
        ≡ none)
    × ((arrive token_bus tokens no_errno first_text two_numbers refuses 9 false text_signal).result
        ≡ negsuc 0)
    × ((b : BusError) × ((arrive token_bus tokens no_errno first_text two_numbers refuses 9 false
            text_signal).reported
          ≡ some b))
unreadable_example =
    unreadable_lem token_bus tokens no_errno first_text two_numbers refuses 9 text_signal
      (errno_error 6 "Failed to deserialize a uint32_t value") text_unread number_failure
