-- ===== src/Remote/Tokens.antt =====
-- What carries messages of tokens: for the tests.
use sdbus_cpp.Prelude.{ℕ, String, true, Option, none, [], refl}
use sdbus_cpp.Handler.{BusError}
use sdbus_cpp.Message.TokenBus.{token_bus, token_append, token_read}
use sdbus_cpp.Remote.Transport.{Transport, TransportLaws}

abbrev pub tokens : Transport token_bus
tokens = record { new_message = ([], []); deliver = λ m. record { msg = m; valid = true } }

abbrev pub tokens_laws : TransportLaws token_bus token_append token_read tokens
tokens_laws = record { new_empty = refl; delivered = λ m. refl; delivered_valid = λ m. refl }

abbrev pub no_errno : ℕ → Option BusError
no_errno n = none

abbrev pub first_text : String → String → String
first_text a b = a
