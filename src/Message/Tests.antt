-- ===== src/Message/Tests.antt =====
-- Serialization and deserialization at a concrete value: a struct of a string, an array that goes
-- out in one step, an array of bools, and a dictionary of variants.
use sdbus_cpp.Prelude.{some, none}
use sdbus_cpp.Prelude.{
  true, false, List, [], ◌∷◌, ◌++◌, ok, throw, errno_error, ◌≡◌, ◌≢◌, ◌⊎◌, All, refl, inl, inr,
  arith,
}
use sdbus_cpp.Message.Types.{
  BasicType, Ty, basic, variant, dictionary, unit, pair, Token, closing, Value, signature_of,
  default_value,
}
use sdbus_cpp.Message.Write.{write}
use sdbus_cpp.Message.Reader.{Reader}
use sdbus_cpp.Message.Read.{read}
use sdbus_cpp.Message.Wire.{emit}
use sdbus_cpp.Message.WriteSound.{write-emit}
use sdbus_cpp.Message.ReadArrays.{Readable}
use sdbus_cpp.Message.RoundTrip.{read-emit}
use sdbus_cpp.Message.Variant.{rewind, write_alternative, variant_contents}
use sdbus_cpp.Message.Items.{variant_contents-IsItem}
use sdbus_cpp.Message.Choice.{contains_value_of_type, read_choice, no_match}
use sdbus_cpp.Message.ChoiceSound.{read_choice-write_alternative}
use sdbus_cpp.Message.TokenBus.{peek_list, token_bus, token_append, token_read}

abbrev sample_contents : Ty
sample_contents = pair (basic BasicType.string) (
    pair (Ty.array (basic BasicType.int32)) (
      pair (Ty.array (basic BasicType.boolean))
        (pair (dictionary (basic BasicType.string) variant) unit)))

abbrev sample_type : Ty
sample_type = Ty.struct sample_contents

abbrev seven : List Token
seven = variant_contents (basic BasicType.int32) 7

abbrev sample : Value sample_type
sample = ("name", (1 ∷ 2 ∷ [], (true ∷ false ∷ [], (("key", seven) ∷ [], tt))))

sample_signature :
    signature_of sample_type
    ≡ b'(' ∷ b's' ∷ b'a' ∷ b'i' ∷ b'a' ∷ b'b' ∷ b'a' ∷ b'{' ∷ b's' ∷ b'v' ∷ b'}' ∷ b')' ∷ []
unfolding signature_of
sample_signature = refl

sample-Readable : Readable 9 sample_type sample
sample-Readable = (
  tt,
  (
    (omega arith, tt, (tt, (tt, tt))),
    (
      (omega arith, tt, (tt, (tt, tt))),
      ((omega arith, ((tt, variant_contents-IsItem (basic BasicType.int32) 9 7 tt), tt)), tt),
    ),
  ),
)

sample_written : write token_bus sample_type sample ([], []) ≡ ok ([], emit sample_type sample)
unfolding write emit signature_of
sample_written = refl

write-emit_example : emit sample_type sample ≡ [] ++ emit sample_type sample
write-emit_example = write-emit token_bus token_append sample_type sample ([], []) sample_written

read-emit_example :
    (s' : Reader token_bus) × (read token_bus sample_type 9
        (default_value sample_type)
        (record { msg = ([], emit sample_type sample ++ closing ∷ []); valid = true })
      ≡ ok (sample, s'))
    × (s'.msg.1 ≡ closing ∷ [])
    × (s'.valid ≡ true)
    × (s'.msg.0 ≡ [])
read-emit_example =
    read-emit token_bus token_read sample_type 9 sample
      (record { msg = ([], emit sample_type sample ++ closing ∷ []); valid = true }) (closing ∷ [])
      sample-Readable refl refl

sample_alternative :
    write_alternative token_bus sample_type sample ([], [])
    ≡ ok ([], variant_contents sample_type sample)
unfolding write_alternative emit write signature_of
sample_alternative = refl

-- The sample in a variant, as it is read.
abbrev variant_message : Reader token_bus
variant_message = record { msg = ([], variant_contents sample_type sample); valid = true }

string_is_other : signature_of (basic BasicType.string) ≢ signature_of sample_type
unfolding signature_of
string_is_other e = cc

read_choice-write_alternative_example :
    ((s' : Reader token_bus) × (read_choice token_bus
          (basic BasicType.string ∷ sample_type ∷ [])
          9
          variant_message
        ≡ some (ok ((sample_type, sample), s')))
      × (s'.msg.1 ≡ []))
    ⊎ (All
          (λ u. signature_of u ≢ signature_of sample_type)
          (basic BasicType.string ∷ sample_type ∷ [])
        × (read_choice token_bus (basic BasicType.string ∷ sample_type ∷ []) 9 variant_message
            ≡ some (throw (errno_error 22 no_match))))
read_choice-write_alternative_example =
    read_choice-write_alternative token_bus token_append token_read sample_type
      (basic BasicType.string ∷ sample_type ∷ []) 9 sample ([], []) variant_message refl
      sample_alternative refl refl sample-Readable (inr string_is_other, (inl refl, tt))

-- For an empty variant, the signature that is compared is a null pointer.
empty_compared :
    contains_value_of_type token_bus
      (basic BasicType.string)
      (record { msg = ([], []); valid = true })
    ≡ none
unfolding contains_value_of_type peek_list rewind
empty_compared = refl
