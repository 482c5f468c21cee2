-- ===== src/Fluent/Once.antt =====
-- Each statement calls its method once.
use sdbus_cpp.Prelude.{
  ℕ, suc, true, false, ◌==◌, Option, none, some, List, [], ◌∷◌, ◌++◌, Result, ok, throw, ◌≡◌, refl,
  ap, ◌∙◌, arith, Bool-cases, inl, inr, Exception,
}
use sdbus_cpp.Fluent.{
  Peer, Link, Finish, plainly, without_reply, with_results, Invoker, Outcome, call_method, go_on,
  chain, store_results, end_with, destruct_invoker, leave_statement, start_with, statement,
}
use sdbus_cpp.Fluent.Quiet.{IsQuiet, chain-IsQuiet}

module _ {M R W : Type 0} (peer : Peer M R W) where
  -- The calls that an outcome has made.
  abbrev pub calls_of : Outcome peer → Option (List (Option M × ℕ))
  calls_of none = none
  calls_of (some (r, i)) = some i.calls

  abbrev once_if : (M → M) → Option M → ℕ → Option (List (Option M × ℕ))
  once_if set none t = none
  once_if set (some m) t = some ((some (set m), t) ∷ [])

  -- The calls that a statement should make, by what its links did.
  abbrev pub expected_calls : Finish M R → Outcome peer → Option (List (Option M × ℕ))
  expected_calls finish none = none
  expected_calls finish (some (throw e, i)) = some []
  expected_calls plainly (some (ok _, i)) = some ((i.message, i.timeout) ∷ [])
  expected_calls (without_reply set) (some (ok _, i)) = once_if set i.message i.timeout
  expected_calls (with_results read) (some (ok _, i)) = once_if (λ m. m) i.message i.timeout

  -- While an exception passes, the destructor does nothing, and so it does after the call.
  destruct_invoker-throw :
      (exceptions : ℕ) (i : Invoker M W)
      → destruct_invoker peer (suc exceptions) exceptions i ≡ (ok tt, i)
  unfolding destruct_invoker
  destruct_invoker-throw exceptions i =
      let other : (suc exceptions == exceptions) ≡ false = ground arith in
      elim (Bool-cases i.method_called) [
        | inl e ↦ rw (destruct_invoker, e) refl
        | inr e ↦ rw (destruct_invoker, e, other) refl
      ]

  destruct_invoker-called :
      (exceptions : ℕ) (i : Invoker M W)
      → i.method_called ≡ true
      → destruct_invoker peer exceptions exceptions i ≡ (ok tt, i)
  unfolding destruct_invoker
  destruct_invoker-called exceptions i e = rw (destruct_invoker, e) refl

  -- Else it calls the method.
  destruct_invoker-calls :
      (exceptions : ℕ) (i : Invoker M W)
      → i.calls ≡ []
      → i.method_called ≡ false
      → (destruct_invoker peer exceptions exceptions i).1.calls ≡ (i.message, i.timeout) ∷ []
  unfolding destruct_invoker call_method
  destruct_invoker-calls exceptions i c e =
      let same : (exceptions == exceptions) ≡ true = ground arith in
      rw (destruct_invoker, e, same) (go (peer.send i.message i.timeout i.world).0)
    where
      go :
          (r : Result R)
          → (elim r as (λ x. Result (Unit {0}) × Invoker M W) [
            | throw e ↦ (throw e, (call_method peer i).1)
            | ok reply ↦ (ok tt, (call_method peer i).1)
          ]).1.calls
            ≡ (i.message, i.timeout) ∷ []
      go (throw e) = ap (λ ts. ts ++ (i.message, i.timeout) ∷ []) c
      go (ok reply) = ap (λ ts. ts ++ (i.message, i.timeout) ∷ []) c

  leave_statement-throw :
      (exceptions : ℕ) (e : Exception) (i : Invoker M W)
      → leave_statement peer exceptions (some (throw e, i)) ≡ some (throw e, i)
  unfolding leave_statement
  leave_statement-throw exceptions e i =
      ap
        (λ (p : Result (Unit {0}) × Invoker M W). elim p.0 as (λ x. Outcome peer) [
          | throw e' ↦ none
          | ok x ↦ some (throw e, p.1)
        ])
        (destruct_invoker-throw exceptions i)

  leave_statement-calls :
      (exceptions : ℕ) (i : Invoker M W)
      → i.calls ≡ []
      → i.method_called ≡ false
      → calls_of (leave_statement peer exceptions (some (ok tt, i)))
        ≡ some ((i.message, i.timeout) ∷ [])
  unfolding leave_statement
  leave_statement-calls exceptions i c q = ap some (destruct_invoker-calls exceptions i c q)

  -- After the call, whatever the reading of the results comes to.
  leave_statement-called :
      (exceptions : ℕ) (r : Result (Unit {0})) (i : Invoker M W)
      → i.method_called ≡ true
      → calls_of (leave_statement peer exceptions (some (r, i))) ≡ some i.calls
  unfolding leave_statement
  leave_statement-called exceptions (ok x) i called =
      rw (leave_statement, destruct_invoker-called exceptions i called) refl
  leave_statement-called exceptions (throw e) i called =
      ap calls_of (leave_statement-throw exceptions e i)

  without_reply-calls :
      (exceptions : ℕ) (set : M → M) (i : Invoker M W) (message : Option M)
      → i.calls ≡ []
      → i.method_called ≡ false
      → calls_of (
          leave_statement peer exceptions (elim message as (λ x. Outcome peer) [
            | none ↦ none
            | some m ↦ some (ok tt, record i { message = some (set m) })
          ]))
        ≡ once_if set message i.timeout
  unfolding leave_statement
  without_reply-calls exceptions set i none c q = refl
  without_reply-calls exceptions set i (some m) c q =
      leave_statement-calls exceptions (record i { message = some (set m) }) c q

  with_results-calls :
      (exceptions : ℕ) (read : R → Result (Unit {0})) (i : Invoker M W) (r : Result R)
      → i.calls ≡ []
      → calls_of (
          leave_statement peer exceptions (elim r as (λ x. Outcome peer) [
            | throw e ↦ some (throw e, (call_method peer i).1)
            | ok reply ↦ some (read reply, record (call_method peer i).1 { method_called = true })
          ]))
        ≡ some ((i.message, i.timeout) ∷ [])
  unfolding call_method
  with_results-calls exceptions read i (throw e) c =
      ap calls_of (leave_statement-throw exceptions e (call_method peer i).1)
      ∙ ap (λ ts. some (ts ++ (i.message, i.timeout) ∷ [])) c
  with_results-calls exceptions read i (ok reply) c =
      leave_statement-called exceptions (read reply)
        (record (call_method peer i).1 { method_called = true }) refl
      ∙ ap (λ ts. some (ts ++ (i.message, i.timeout) ∷ [])) c

  store_results-calls :
      (exceptions : ℕ) (read : R → Result (Unit {0})) (i : Invoker M W) (message : Option M)
      → i.message ≡ message
      → i.calls ≡ []
      → calls_of (leave_statement peer exceptions (store_results peer read i))
        ≡ once_if (λ m. m) message i.timeout
  unfolding store_results leave_statement call_method
  store_results-calls exceptions read i none e c = rw (store_results, e, leave_statement) refl
  store_results-calls exceptions read i (some m) e c =
      ap
        (λ message. calls_of (
          leave_statement peer exceptions (elim message as (λ x. Outcome peer) [
            | none ↦ none
            | some m ↦ elim (call_method peer i).0 as (λ x. Outcome peer) [
              | throw e ↦ some (throw e, (call_method peer i).1)
              | ok reply ↦ some (read reply, record (call_method peer i).1 { method_called = true })
            ]
          ])))
        e
      ∙ with_results-calls exceptions read i (call_method peer i).0 c
      ∙ ap (λ message. some ((message, i.timeout) ∷ [])) e

  finish-calls :
      (exceptions : ℕ) (finish : Finish M R) (i : Invoker M W) (u : Unit {0})
      → i.calls ≡ []
      → i.method_called ≡ false
      → calls_of (leave_statement peer exceptions (end_with peer finish i))
        ≡ expected_calls finish (some (ok u, i))
  unfolding end_with
  finish-calls exceptions plainly i u c q = leave_statement-calls exceptions i c q
  finish-calls exceptions (without_reply set) i u c q =
      without_reply-calls exceptions set i i.message c q
  finish-calls exceptions (with_results read) i u c q =
      store_results-calls exceptions read i i.message refl c

  -- Each fluent statement that comes to its end calls its method once, with the message that its
  -- links made and its timeout: with storeResultsTo there, else when the invoker is destroyed. A
  -- statement one of whose links threw does not call it, and one whose call or whose reading of the
  -- results threw does not call it again, also where other exceptions are under way when the
  -- statement begins. The program ends only where an assertion of a link or of the end fails.
  pub statement_lem :
      (exceptions : ℕ) (links : List (Link M)) (finish : Finish M R) (w : W)
      → calls_of (statement peer exceptions links finish w)
        ≡ expected_calls finish (chain peer links (start_with peer w))
  unfolding statement
  statement_lem exceptions links finish w =
      go (chain peer links (start_with peer w))
        (chain-IsQuiet peer links (start_with peer w) refl refl)
    where
      go :
          (o : Outcome peer)
          → IsQuiet peer o
          → calls_of (leave_statement peer exceptions (go_on peer (end_with peer finish) o))
            ≡ expected_calls finish o
      go none quiet = refl
      go (some (throw e, i)) (c, q) = ap calls_of (leave_statement-throw exceptions e i) ∙ ap some c
      go (some (ok u, i)) (c, q) = finish-calls exceptions finish i u c q
