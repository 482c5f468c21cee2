-- ===== src/Fluent/Quiet.antt =====
-- The links of a statement call nothing.
use sdbus_cpp.Prelude.{false, Option, none, some, List, [], ◌∷◌, Result, ok, throw, ◌≡◌}
use sdbus_cpp.Fluent.{
  Peer, Link, on_interface, with_timeout, with_arguments, Invoker, Outcome, serialize_arguments,
  link, go_on, chain,
}

module _ {M R W : Type 0} (peer : Peer M R W) where
  -- No call was made up to here.
  abbrev pub IsQuiet : Outcome peer → Type 0
  IsQuiet none = Unit
  IsQuiet (some (r, i)) = (i.calls ≡ []) × (i.method_called ≡ false)

  serialize-IsQuiet :
      (write : M → Result M) (i : Invoker M W) (message : Option M)
      → i.calls ≡ []
      → i.method_called ≡ false
      → IsQuiet (elim message as (λ x. Outcome peer) [
        | none ↦ none
        | some m ↦ elim (write m) as (λ x. Outcome peer) [
          | throw e ↦ some (throw e, i)
          | ok m' ↦ some (ok tt, record i { message = some m' })
        ]
      ])
  serialize-IsQuiet write i none c q = tt
  serialize-IsQuiet write i (some m) c q = go (write m)
    where
      go :
          (r : Result M)
          → IsQuiet (elim r as (λ x. Outcome peer) [
            | throw e ↦ some (throw e, i)
            | ok m' ↦ some (ok tt, record i { message = some m' })
          ])
      go (throw e) = (c, q)
      go (ok m') = (c, q)

  link-IsQuiet :
      (l : Link M) (i : Invoker M W)
      → i.calls ≡ []
      → i.method_called ≡ false
      → IsQuiet (link peer l i)
  unfolding link serialize_arguments
  link-IsQuiet (on_interface name) i c q = go (peer.create_message name i.world)
    where
      go :
          (r : Result M × W)
          → IsQuiet (elim r.0 as (λ x. Outcome peer) [
            | throw e ↦ some (throw e, record i { world = r.1 })
            | ok m ↦ some (ok tt, record i { message = some m; world = r.1 })
          ])
      go (throw e, w) = (c, q)
      go (ok m, w) = (c, q)
  link-IsQuiet (with_timeout t) i c q = (c, q)
  link-IsQuiet (with_arguments write) i c q = serialize-IsQuiet write i i.message c q

  go_on-IsQuiet :
      (next : Invoker M W → Outcome peer) (o : Outcome peer)
      → IsQuiet o
      → ((i : Invoker M W) → i.calls ≡ [] → i.method_called ≡ false → IsQuiet (next i))
      → IsQuiet (go_on peer next o)
  unfolding go_on
  go_on-IsQuiet next none quiet behind = tt
  go_on-IsQuiet next (some (throw e, i)) quiet behind = quiet
  go_on-IsQuiet next (some (ok x, i)) (c, q) behind = behind i c q

  pub chain-IsQuiet :
      (ls : List (Link M)) (i : Invoker M W)
      → i.calls ≡ []
      → i.method_called ≡ false
      → IsQuiet (chain peer ls i)
  unfolding chain
  chain-IsQuiet [] i c q = (c, q)
  chain-IsQuiet (l ∷ ls) i c q =
      go_on-IsQuiet (chain peer ls) (link peer l i) (link-IsQuiet l i c q) (chain-IsQuiet ls)
