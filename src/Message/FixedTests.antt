-- ===== src/Message/FixedTests.antt =====
-- Arrays that are read into destinations of a fixed size.
use sdbus_cpp.Prelude.{
  true, false, List, [], ◌∷◌, ◌++◌, Result, ok, throw, errno_error, ◌≡◌, refl, arith,
}
use sdbus_cpp.Message.Types.{BasicType, Ty, basic, closing, Value, signature_of, default_value}
use sdbus_cpp.Message.Write.{to_payload}
use sdbus_cpp.Message.Reader.{Reader}
use sdbus_cpp.Message.Read.{read}
use sdbus_cpp.Message.Wire.{emit}
use sdbus_cpp.Message.Fixed.{fill_array, no_space, einval}
use sdbus_cpp.Message.FixedSound.{Fills, fill_array-emit}
use sdbus_cpp.Message.TokenBus.{enter_list, read_item, exit_list, token_bus, token_read}

-- Two strings, a message with them, and the reading of it into that destination.
abbrev two_names : List (Value (basic BasicType.string))
two_names = "one" ∷ "two" ∷ []

abbrev names_message : Reader token_bus
names_message = record {
  msg = ([], emit (Ty.array (basic BasicType.string)) two_names ++ closing ∷ []);
  valid = true;
}

abbrev fill_names :
    List (Value (basic BasicType.string))
    → Reader token_bus
    → Result (List (Value (basic BasicType.string)) × Reader token_bus)
fill_names =
    fill_array token_bus (basic BasicType.string) (read token_bus (basic BasicType.string) 5)

fill_array-emit_example :
    Fills token_bus token_read
      (basic BasicType.string)
      fill_names
      two_names
      ("" ∷ "" ∷ "" ∷ [])
      names_message
      (closing ∷ [])
unfolding default_value
fill_array-emit_example =
    fill_array-emit token_bus token_read (basic BasicType.string) 5 two_names ("" ∷ "" ∷ "" ∷ [])
      names_message (closing ∷ []) (omega arith, tt, (tt, (tt, tt))) (refl, (refl, (refl, tt))) refl
      refl

names_filled :
    fill_names ("" ∷ "" ∷ "" ∷ []) names_message
    ≡ ok ("one" ∷ "two" ∷ "" ∷ [], record { msg = ([], closing ∷ []); valid = true })
unfolding fill_array read emit signature_of to_payload enter_list read_item exit_list
names_filled = refl

names_refused : fill_names ("" ∷ []) names_message ≡ throw (errno_error einval no_space)
unfolding fill_array read emit signature_of to_payload enter_list read_item exit_list
names_refused = refl

-- A destination's element that the array has no value for is set to false if it is a bool.
bool_overwritten :
    fill_array token_bus
      (basic BasicType.boolean)
      (read token_bus (basic BasicType.boolean) 5)
      (true ∷ true ∷ true ∷ [])
      (record { msg = ([], emit (Ty.array (basic BasicType.boolean)) (true ∷ [])); valid = true })
    ≡ ok (true ∷ false ∷ true ∷ [], record { msg = ([], []); valid = true })
unfolding fill_array read emit signature_of to_payload enter_list read_item exit_list
bool_overwritten = refl
