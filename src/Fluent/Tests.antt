-- ===== src/Fluent/Tests.antt =====
-- Statements over a bus that replies with the message it got, and counts the calls.
use sdbus_cpp.Prelude.{ℕ, suc, Option, some, List, [], ◌∷◌, Result, ok, throw, error, ◌≡◌, refl}
use sdbus_cpp.Fluent.{
  Peer, Link, on_interface, with_timeout, with_arguments, with_results, plainly, statement, chain,
}
use sdbus_cpp.Fluent.Once.{calls_of, statement_lem}

abbrev echo : Peer (List ℕ) (Option (List ℕ)) ℕ
echo = record { create_message = λ name w. (ok [], w); send = λ m t w. (ok m, suc w) }

abbrev with_seven : List (Link (List ℕ))
with_seven = on_interface "org.example" ∷ with_timeout 5 ∷ with_arguments (λ m. ok (7 ∷ m)) ∷ []

abbrev unreadable : Option (List ℕ) → Result (Unit {0})
unreadable r = throw (error "org.example.Error" "no results")

-- With two exceptions under way, and results that cannot be read: one call.
statement_example :
    calls_of echo (statement echo 2 with_seven (with_results unreadable) 0)
    ≡ some ((some (7 ∷ []), 5) ∷ [])
unfolding chain
statement_example = statement_lem echo 2 with_seven (with_results unreadable) 0

-- Arguments that cannot be written: no call.
failed_arguments :
    calls_of echo (
      statement echo 0
        (on_interface "org.example"
          ∷ with_arguments (λ m. throw (error "org.example.Error" "no arguments"))
          ∷ [])
        plainly
        0)
    ≡ some []
unfolding statement
failed_arguments = refl
