-- ===== src/Message/Api.antt =====
-- The message functions of libsystemd (or basu) that src/Message.cpp calls, as parameters. A result
-- is the C `int` that the function returns with what it stores and the message after it.
use sdbus_cpp.Prelude.{
  ℕ, zero, suc, ℤ, pos, is_neg, Bool, true, false, if◌then◌else◌, Option, none, some, List, [], ◌∷◌,
  ◌++◌, map, ◌≡◌,
}
use sdbus_cpp.Message.Types.{
  BasicType, Payload, Container, Token, item, opening, closing, type_code, is_contiguous,
}

pub record SdBusMessage : Type 1 where
  pub Msg : Type 0
  pub append_basic : BasicType → Payload → Msg → ℤ × Msg
  pub append_array : BasicType → List Payload → Msg → ℤ × Msg
  pub open_container : Container → List ℕ → Msg → ℤ × Msg
  pub close_container : Msg → ℤ × Msg
  -- Appends the whole contents of another, sealed message.
  pub copy_all : List Token → Msg → ℤ × Msg
  -- Goes back to the start of a message with those contents.
  pub rewind_all : List Token → ℤ
  pub read_basic : BasicType → Msg → ℤ × Option Payload × Msg
  pub read_array : BasicType → Msg → ℤ × List Payload × Msg
  pub enter_container : Container → List ℕ → Msg → ℤ × Msg
  pub exit_container : Msg → ℤ × Msg
  -- Whether the current container's contents are read.
  pub at_end : Msg → ℤ
  -- The signature of the contents of the next item, if it is a container.
  pub peek_type : Msg → ℤ × Option (List ℕ)
  -- Moves the next complete item to the end of a message with the given contents.
  pub copy_item : List Token → Msg → ℤ × List Token × Msg
  -- Makes a message read-only, and the same for one with the given contents.
  pub seal : Msg → ℤ × Msg
  pub seal_copy : List Token → ℤ
  -- Goes back to the start of the current container, or of the message.
  pub rewind : Msg → ℤ × Msg

-- Puts a token in front of the first part.
abbrev pub cons_first : Token → Option (List Token × List Token) → Option (List Token × List Token)
cons_first t none = none
cons_first t (some (xs, ys)) = some (t ∷ xs, ys)

-- The same, for tokens.
abbrev pub prepend :
    List Token → Option (List Token × List Token) → Option (List Token × List Token)
prepend ts none = none
prepend ts (some (xs, ys)) = some (ts ++ xs, ys)

-- The first complete item of a sequence: the tokens up to the one that closes what it opens. The
-- number counts the containers that are open.
unfoldable pub split_item : ℕ → List Token → Option (List Token × List Token)
split_item n [] = none
split_item zero (item b p ∷ ts) = some (item b p ∷ [], ts)
split_item (suc n) (item b p ∷ ts) = cons_first (item b p) (split_item (suc n) ts)
split_item n (opening c s ∷ ts) = cons_first (opening c s) (split_item (suc n) ts)
split_item zero (closing ∷ ts) = none
split_item (suc zero) (closing ∷ ts) = some (closing ∷ [], ts)
split_item (suc (suc n)) (closing ∷ ts) = cons_first closing (split_item (suc n) ts)

-- Nothing more can be read in the current container.
abbrev pub ends_here : List Token → Bool
ends_here (item b p ∷ ts) = false
ends_here (opening c s ∷ ts) = false
ends_here ts = true

-- The elements of an array as tokens.
abbrev pub items : BasicType → List Payload → List Token
items b = map (item b)

-- What libsystemd documents of appending: a call that does not fail appends to the contents.
pub record AppendLaws (bus : SdBusMessage) : Type 0 where
  pub written : bus.Msg → List Token
  pub append_basic_lem :
      (b : BasicType) (p : Payload) (m : bus.Msg)
      → is_neg (bus.append_basic b p m).0 ≡ false
      → written (bus.append_basic b p m).1 ≡ written m ++ item b p ∷ []
  pub append_array_lem :
      (b : BasicType) (ps : List Payload) (m : bus.Msg)
      → is_neg (bus.append_array b ps m).0 ≡ false
      → written (bus.append_array b ps m).1
        ≡ written m ++ (opening Container.array (type_code b ∷ []) ∷ (items b ps ++ closing ∷ []))
  pub open_container_lem :
      (c : Container) (s : List ℕ) (m : bus.Msg)
      → is_neg (bus.open_container c s m).0 ≡ false
      → written (bus.open_container c s m).1 ≡ written m ++ opening c s ∷ []
  pub close_container_lem :
      (m : bus.Msg)
      → is_neg (bus.close_container m).0 ≡ false
      → written (bus.close_container m).1 ≡ written m ++ closing ∷ []
  pub copy_all_lem :
      (ts : List Token) (m : bus.Msg)
      → is_neg (bus.copy_all ts m).0 ≡ false
      → written (bus.copy_all ts m).1 ≡ written m ++ ts
  pub seal_lem : (m : bus.Msg) → is_neg (bus.seal m).0 ≡ false → written (bus.seal m).1 ≡ written m

-- What libsystemd documents of reading: a call that finds what it asks for returns 1 and moves past
-- it, and one at the end of an array returns 0 and does not move. (At the end of a struct or of the
-- message these calls fail.) The containers are those that are open, the innermost first. A message
-- in which no container is open can be sealed, and rewound to its first item.
pub record ReadLaws (bus : SdBusMessage) : Type 0 where
  pub rest : bus.Msg → List Token
  pub containers : bus.Msg → List Container
  pub contents : bus.Msg → List Token
  pub read_basic_item :
      (b : BasicType) (p : Payload) (m : bus.Msg) (ts : List Token)
      → rest m ≡ item b p ∷ ts
      → ((bus.read_basic b m).0 ≡ pos 1)
        × ((bus.read_basic b m).1 ≡ some p)
        × (rest (bus.read_basic b m).2 ≡ ts)
        × (containers (bus.read_basic b m).2 ≡ containers m)
  pub read_basic_end :
      (b : BasicType) (m : bus.Msg) (cs : List Container) (ts : List Token)
      → containers m ≡ Container.array ∷ cs
      → rest m ≡ closing ∷ ts
      → ((bus.read_basic b m).0 ≡ pos 0)
        × ((bus.read_basic b m).1 ≡ none)
        × (rest (bus.read_basic b m).2 ≡ rest m)
        × (containers (bus.read_basic b m).2 ≡ containers m)
  pub read_array_item :
      (b : BasicType) (ps : List Payload) (m : bus.Msg) (ts : List Token)
      → is_contiguous b ≡ true
      → rest m ≡ opening Container.array (type_code b ∷ []) ∷ (items b ps ++ closing ∷ ts)
      → ((bus.read_array b m).0 ≡ pos 1)
        × ((bus.read_array b m).1 ≡ ps)
        × (rest (bus.read_array b m).2 ≡ ts)
        × (containers (bus.read_array b m).2 ≡ containers m)
  pub read_array_end :
      (b : BasicType) (m : bus.Msg) (cs : List Container) (ts : List Token)
      → containers m ≡ Container.array ∷ cs
      → rest m ≡ closing ∷ ts
      → ((bus.read_array b m).0 ≡ pos 0)
        × ((bus.read_array b m).1 ≡ [])
        × (rest (bus.read_array b m).2 ≡ rest m)
        × (containers (bus.read_array b m).2 ≡ containers m)
  pub enter_container_item :
      (c : Container) (s : List ℕ) (m : bus.Msg) (ts : List Token)
      → rest m ≡ opening c s ∷ ts
      → ((bus.enter_container c s m).0 ≡ pos 1)
        × (rest (bus.enter_container c s m).1 ≡ ts)
        × (containers (bus.enter_container c s m).1 ≡ c ∷ containers m)
  pub enter_container_end :
      (c : Container) (s : List ℕ) (m : bus.Msg) (cs : List Container) (ts : List Token)
      → containers m ≡ Container.array ∷ cs
      → rest m ≡ closing ∷ ts
      → ((bus.enter_container c s m).0 ≡ pos 0)
        × (rest (bus.enter_container c s m).1 ≡ rest m)
        × (containers (bus.enter_container c s m).1 ≡ containers m)
  pub exit_container_end :
      (m : bus.Msg) (c : Container) (cs : List Container) (ts : List Token)
      → containers m ≡ c ∷ cs
      → rest m ≡ closing ∷ ts
      → (is_neg (bus.exit_container m).0 ≡ false)
        × (rest (bus.exit_container m).1 ≡ ts)
        × (containers (bus.exit_container m).1 ≡ cs)
  pub at_end_lem :
      (m : bus.Msg) (cs : List Container)
      → containers m ≡ Container.array ∷ cs
      → bus.at_end m ≡ (if ends_here (rest m) then pos 1 else pos 0)
  pub peek_type_item :
      (c : Container) (s : List ℕ) (m : bus.Msg) (ts : List Token)
      → rest m ≡ opening c s ∷ ts
      → bus.peek_type m ≡ (pos 1, some s)
  pub copy_item_item :
      (m : bus.Msg) (xs ts : List Token)
      → split_item 0 (rest m) ≡ some (xs, ts)
      → ((bus.copy_item [] m).0 ≡ pos 1)
        × ((bus.copy_item [] m).1 ≡ xs)
        × (rest (bus.copy_item [] m).2 ≡ ts)
        × (containers (bus.copy_item [] m).2 ≡ containers m)
  pub copy_item_end :
      (m : bus.Msg) (cs : List Container) (ts : List Token)
      → containers m ≡ Container.array ∷ cs
      → rest m ≡ closing ∷ ts
      → ((bus.copy_item [] m).0 ≡ pos 0)
        × ((bus.copy_item [] m).1 ≡ [])
        × (rest (bus.copy_item [] m).2 ≡ rest m)
        × (containers (bus.copy_item [] m).2 ≡ containers m)
  pub seal_copy_item :
      (ts : List Token) → split_item 0 ts ≡ some (ts, []) → is_neg (bus.seal_copy ts) ≡ false
  pub seal_copy_nil : is_neg (bus.seal_copy []) ≡ false
  pub rewind_lem :
      (m : bus.Msg)
      → containers m ≡ []
      → (is_neg (bus.rewind m).0 ≡ false)
        × (rest (bus.rewind m).1 ≡ contents m)
        × (containers (bus.rewind m).1 ≡ [])
