-- ===== src/Fluent.antt =====
-- Fluent statements: `MethodInvoker` and `SignalEmitter` of
-- include/sdbus-c++/ConvenienceApiClasses.inl, which call the method, or emit the signal, in their
-- destructor. `M` is the type of messages, `R` that of replies and `W` the state of everything else.
-- A failed assertion, and an exception while another one passes, is `none`: the program ends.
use sdbus_cpp.Prelude.{
  ℕ, zero, suc, String, Bool, true, false, not, ◌||◌, ◌==◌, Option, none, some, List, [], ◌∷◌, ◌++◌,
  Result, ok, throw, Exception, if◌then◌else◌,
}
pub mod Quiet
pub mod Once
mod Tests

-- `IProxy::createMethodCall` for the method's name, and `IProxy::callMethod`, which refuses a message
-- that is not valid. (`IObject::createSignal` and `IObject::emitSignal` for signals, with no reply.)
pub record Peer (M R W : Type 0) : Type 0 where
  pub create_message : String → W → Result M × W
  pub send : Option M → ℕ → W → Result R × W

-- onInterface, withTimeout and withArguments, which writes the arguments to the message.
pub data Link (M : Type 0) : Type 0 where
  on_interface : String → Link M
  with_timeout : ℕ → Link M
  with_arguments : (M → Result M) → Link M

-- How a statement ends: at the invoker's last link, with dontExpectReply, or with storeResultsTo,
-- which reads the results from the reply.
pub data Finish (M R : Type 0) : Type 0 where
  plainly : Finish M R
  without_reply : (M → M) → Finish M R
  with_results : (R → Result (Unit {0})) → Finish M R

-- The members of the invoker, and the calls of the method up to now.
pub record Invoker (M W : Type 0) : Type 0 where
  pub message : Option M
  pub timeout : ℕ
  pub method_called : Bool
  pub world : W
  pub calls : List (Option M × ℕ)

module _ {M R W : Type 0} (peer : Peer M R W) where
  -- How far a statement came: it returned or threw, with what it left.
  abbrev pub Outcome : Type 0
  Outcome = Option (Result (Unit {0}) × Invoker M W)

  unfoldable pub call_method : Invoker M W → Result R × Invoker M W
  call_method i =
      let (r, w) = peer.send i.message i.timeout i.world in
      (r, record i { world = w; calls = i.calls ++ (i.message, i.timeout) ∷ [] })

  unfoldable pub serialize_arguments : (M → Result M) → Invoker M W → Outcome
  serialize_arguments write i = elim i.message [
    | none ↦ none
    | some m ↦ elim (write m) [
      | throw e ↦ some (throw e, i)
      | ok m' ↦ some (ok tt, record i { message = some m' })
    ]
  ]

  unfoldable pub link : Link M → Invoker M W → Outcome
  unfolding serialize_arguments
  link (on_interface name) i =
      let (r, w) = peer.create_message name i.world in
      elim r [
        | throw e ↦ some (throw e, record i { world = w })
        | ok m ↦ some (ok tt, record i { message = some m; world = w })
      ]
  link (with_timeout t) i = some (ok tt, record i { timeout = t })
  link (with_arguments write) i = serialize_arguments write i

  -- What follows runs if the outcome is a return.
  unfoldable pub go_on : (Invoker M W → Outcome) → Outcome → Outcome
  go_on next none = none
  go_on next (some (throw e, i)) = some (throw e, i)
  go_on next (some (ok _, i)) = next i

  unfoldable pub chain : List (Link M) → Invoker M W → Outcome
  unfolding link go_on
  chain [] i = some (ok tt, i)
  chain (l ∷ ls) i = go_on (chain ls) (link l i)

  unfoldable pub store_results : (R → Result (Unit {0})) → Invoker M W → Outcome
  unfolding call_method
  store_results read i = elim i.message [
    | none ↦ none
    | some m ↦
        let (r, i') = call_method i in
        elim r [
          | throw e ↦ some (throw e, i')
          | ok reply ↦ some (read reply, record i' { method_called = true })
        ]
  ]

  unfoldable pub end_with : Finish M R → Invoker M W → Outcome
  unfolding store_results
  end_with plainly i = some (ok tt, i)
  end_with (without_reply set) i = elim i.message [
    | none ↦ none
    | some m ↦ some (ok tt, record i { message = some (set m) })
  ]
  end_with (with_results read) i = store_results read i

  -- The destructor, with the number of exceptions under way then and at the construction.
  unfoldable pub destruct_invoker : ℕ → ℕ → Invoker M W → Result (Unit {0}) × Invoker M W
  unfolding call_method
  destruct_invoker uncaught exceptions i =
      if i.method_called || not (uncaught == exceptions)
      then (ok tt, i)
      else (let (r, i') = call_method i in
          elim r [ throw e ↦ (throw e, i') | ok reply ↦ (ok tt, i') ])

  -- The end of the statement destroys the invoker, also when an exception passes.
  unfoldable pub leave_statement : ℕ → Outcome → Outcome
  unfolding destruct_invoker
  leave_statement exceptions none = none
  leave_statement exceptions (some (ok _, i)) = some (destruct_invoker exceptions exceptions i)
  leave_statement exceptions (some (throw e, i)) =
      let (r, i') = destruct_invoker (suc exceptions) exceptions i in
      elim r [ throw e' ↦ none | ok _ ↦ some (throw e, i') ]

  -- A new invoker.
  abbrev pub start_with : W → Invoker M W
  start_with w = record {
    message = none;
    timeout = 0;
    method_called = false;
    world = w;
    calls = [];
  }

  -- `proxy->callMethod(name).onInterface(...)...`, or `object->emitSignal(name)...`, where
  -- `exceptions` are under way.
  unfoldable pub statement : ℕ → List (Link M) → Finish M R → W → Outcome
  unfolding chain end_with go_on leave_statement
  statement exceptions links finish w =
      leave_statement exceptions (go_on (end_with finish) (chain links (start_with w)))
