-- ===== src/Message/Choice.antt =====
-- What is decided by the signature of a variant's contents: `Variant::containsValueOfType` of
-- include/sdbus-c++/Types.h, and the operators for `std::variant` of include/sdbus-c++/Message.h.
use sdbus_cpp.Prelude.{
  ℕ, is_neg, errno_of, String, Bool, true, false, ◌&&◌, ◌==◌, Option, none, some, List, [], ◌∷◌,
  Result, ok, throw, errno_error, ◌>>=◌, throw_error_if, ◌>>◌,
}
use sdbus_cpp.Message.Types.{Ty, Value, signature_of}
use sdbus_cpp.Message.Api.{SdBusMessage}
use sdbus_cpp.Message.Reader.{Reader}
use sdbus_cpp.Message.Variant.{rewind, read_alternative}

-- `std::strcmp(a, b) == 0`
unfoldable pub same_text : List ℕ → List ℕ → Bool
same_text [] [] = true
same_text [] (b ∷ bs) = false
same_text (a ∷ as') [] = false
same_text (a ∷ as') (b ∷ bs) = (a == b) && same_text as' bs

abbrev pub no_match : String
no_match = "Failed to deserialize variant: signature did not match any of the variant types"

-- A `std::variant` of some alternatives: the one that it holds, and its value.
abbrev pub Choice : Type 0
Choice = (t : Ty) × Value t

module _ (bus : SdBusMessage) where
  unfoldable pub peek_type : Reader bus → Result (Option (List ℕ))
  peek_type s =
      let (r, contents) = bus.peek_type s.msg in
      throw_error_if (is_neg r) "Failed to peek message type" (errno_of r) >> ok contents

  -- The rest of a function that compares the signature of the contents. There is no result if it
  -- is a null pointer, with which `strcmp` is undefined.
  unfoldable pub with_contents {ℓ} :
      {A : Type ℓ} → (List ℕ → Result A) → Reader bus → Option (Result A)
  unfolding peek_type
  with_contents f s = elim (peek_type s) [
    | throw e ↦ some (throw e)
    | ok none ↦ none
    | ok (some contents) ↦ some (f contents)
  ]

  unfoldable pub contains_value_of_type : Ty → Reader bus → Option (Result Bool)
  unfolding rewind with_contents same_text
  contains_value_of_type t s = elim (rewind bus s) [
    | throw e ↦ some (throw e)
    | ok s' ↦ with_contents (λ contents. ok (same_text (signature_of t) contents)) s'
  ]

  -- `(deserialize_variant<Elements>(*this, value, contents) || ...)`
  unfoldable pub choose : List Ty → ℕ → Reader bus → List ℕ → Result (Choice × Reader bus)
  unfolding same_text read_alternative
  choose [] fuel s contents = throw (errno_error 22 no_match)
  choose (u ∷ us) fuel s contents = elim (same_text contents (signature_of u)) [
    | true ↦ read_alternative bus u fuel s >>= λ (x, s'). ok ((u, x), s')
    | false ↦ choose us fuel s contents
  ]

  unfoldable pub read_choice : List Ty → ℕ → Reader bus → Option (Result (Choice × Reader bus))
  unfolding choose with_contents
  read_choice us fuel s = with_contents (choose us fuel s) s
