-- ===== src/Message/Solid.antt =====
-- A value that has a signature leaves a trace in a message: its wire form is never taken for the
-- end of a container.
use sdbus_cpp.Prelude.{ℕ, false, List, [], ◌∷◌, ◌++◌, ◌≡◌, refl, inl, inr, append_assoc}
use sdbus_cpp.Message.Types.{
  Ty, basic, variant, dict_entry, dictionary, unit, pair, Token, item, opening, closing, Value,
}
use sdbus_cpp.Message.Api.{ends_here, split_item}
use sdbus_cpp.Message.Wire.{emit}
use sdbus_cpp.Message.ReadLoops.{IsItem}
use sdbus_cpp.Message.ReadArrays.{Readable, IsSolid}

item-continues : (ts rest : List Token) → IsItem ts → ends_here (ts ++ rest) ≡ false
unfolding split_item
item-continues [] rest h = absurd (cc (h.0))
item-continues (item b p ∷ ts) rest h = refl
item-continues (opening c s ∷ ts) rest h = refl
item-continues (closing ∷ ts) rest h = absurd (cc (h.1 rest))

-- What follows the value is not the end, so neither is the value with it.
pub emit-continues :
    (t : Ty) (fuel : ℕ) (x : Value t) (rest : List Token)
    → Readable fuel t x
    → ends_here rest ≡ false
    → ends_here (emit t x ++ rest) ≡ false
unfolding emit
emit-continues (basic b) fuel x rest h more = refl
emit-continues variant fuel ts rest h more = item-continues ts rest h
emit-continues (Ty.array t) fuel xs rest h more = refl
emit-continues (dict_entry k v) fuel e rest h more = refl
emit-continues (dictionary k v) fuel es rest h more = refl
emit-continues (Ty.struct t) fuel x rest h more = refl
emit-continues unit fuel x rest h more = more
emit-continues (pair t u) fuel (a, b) rest h more =
    rw (append_assoc (emit t a) (emit u b) rest)
      (emit-continues t fuel a (emit u b ++ rest) h.0 (emit-continues u fuel b rest h.1 more))

pub solid-continues :
    (t : Ty) (fuel : ℕ) (x : Value t) (rest : List Token)
    → IsSolid t
    → Readable fuel t x
    → ends_here (emit t x ++ rest) ≡ false
unfolding emit
solid-continues (basic b) fuel x rest solid h = refl
solid-continues variant fuel ts rest solid h = item-continues ts rest h
solid-continues (Ty.array t) fuel xs rest solid h = refl
solid-continues (dict_entry k v) fuel e rest solid h = refl
solid-continues (dictionary k v) fuel es rest solid h = refl
solid-continues (Ty.struct t) fuel x rest solid h = refl
solid-continues unit fuel x rest solid h = elim solid [ ]
solid-continues (pair t u) fuel (a, b) rest (inl solid) h =
    rw (append_assoc (emit t a) (emit u b) rest)
      (solid-continues t fuel a (emit u b ++ rest) solid h.0)
solid-continues (pair t u) fuel (a, b) rest (inr solid) h =
    rw (append_assoc (emit t a) (emit u b) rest)
      (emit-continues t fuel a (emit u b ++ rest) h.0 (solid-continues u fuel b rest solid h.1))
