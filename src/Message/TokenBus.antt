-- ===== src/Message/TokenBus.antt =====
-- A message that keeps its contents as a list: it meets what is assumed of libsystemd.
use sdbus_cpp.Prelude.{
  ℕ, ℤ, pos, negsuc, is_neg, false, Option, none, some, List, [], ◌∷◌, ◌++◌, ◌≡◌, refl, arith, ◌==◌,
  if◌then◌else◌,
}
use sdbus_cpp.Message.Types.{
  BasicType, Payload, Container, Token, item, opening, closing, type_code,
}
use sdbus_cpp.Message.Api.{SdBusMessage, AppendLaws, ReadLaws, ends_here, items, split_item}

-- The open containers, the innermost first, and the contents: to read, or written up to now.
abbrev pub TokenMessage : Type 0
TokenMessage = List Container × List Token

-- 0 at the end of an array, and -ENXIO at the end of another container or of the message.
abbrev end_result : List Container → ℤ
end_result (Container.array ∷ cs) = pos 0
end_result cs = negsuc 5

unfoldable pub read_item : BasicType → TokenMessage → ℤ × Option Payload × TokenMessage
unfolding type_code
read_item b (cs, []) = (negsuc 5, none, (cs, []))
read_item b (cs, closing ∷ ts) = (end_result cs, none, (cs, closing ∷ ts))
read_item b (cs, item c p ∷ ts) =
    if type_code b == type_code c
    then (pos 1, some p, (cs, ts))
    else (negsuc 5, none, (cs, item c p ∷ ts))
read_item b (cs, opening c s ∷ ts) = (negsuc 5, none, (cs, opening c s ∷ ts))

-- The payloads up to the end of the container.
unfoldable pub payloads : List Token → List Payload × List Token
payloads (item b p ∷ ts) = let (ps, rest) = payloads ts in (p ∷ ps, rest)
payloads (closing ∷ ts) = ([], ts)
payloads ts = ([], ts)

unfoldable pub read_items : BasicType → TokenMessage → ℤ × List Payload × TokenMessage
unfolding payloads
read_items b (cs, []) = (negsuc 5, [], (cs, []))
read_items b (cs, closing ∷ ts) = (end_result cs, [], (cs, closing ∷ ts))
read_items b (cs, opening c s ∷ ts) = let (ps, rest) = payloads ts in (pos 1, ps, (cs, rest))
read_items b (cs, item c p ∷ ts) = (negsuc 5, [], (cs, item c p ∷ ts))

unfoldable pub enter_list : Container → List ℕ → TokenMessage → ℤ × TokenMessage
enter_list c s (cs, []) = (negsuc 5, (cs, []))
enter_list c s (cs, closing ∷ ts) = (end_result cs, (cs, closing ∷ ts))
enter_list c s (cs, opening d r ∷ ts) = (pos 1, (c ∷ cs, ts))
enter_list c s (cs, item b p ∷ ts) = (negsuc 5, (cs, item b p ∷ ts))

unfoldable pub exit_list : TokenMessage → ℤ × TokenMessage
exit_list (c ∷ cs, closing ∷ ts) = (pos 1, (cs, ts))
exit_list m = (negsuc 15, m)

unfoldable pub split_or_end :
    Option (List Token × List Token) → TokenMessage → ℤ × List Token × TokenMessage
split_or_end (some (xs, rest)) (cs, ts) = (pos 1, xs, (cs, rest))
split_or_end none m = (pos 0, [], m)

unfoldable pub copy_list : List Token → TokenMessage → ℤ × List Token × TokenMessage
unfolding split_or_end split_item
copy_list [] m = split_or_end (split_item 0 m.1) m
copy_list (d ∷ ds) m = (negsuc 0, d ∷ ds, m)

unfoldable pub peek_list : List Token → ℤ × Option (List ℕ)
peek_list (opening c s ∷ ts) = (pos 1, some s)
peek_list (item b p ∷ ts) = (pos 1, none)
peek_list ts = (pos 0, none)

abbrev pub token_bus : SdBusMessage
token_bus = record {
  Msg = TokenMessage;
  append_basic = λ b p m. (pos 0, (m.0, m.1 ++ item b p ∷ []));
  append_array = λ b ps m. (
    pos 0,
    (m.0, m.1 ++ (opening Container.array (type_code b ∷ []) ∷ (items b ps ++ closing ∷ []))),
  );
  open_container = λ c s m. (pos 0, (m.0, m.1 ++ opening c s ∷ []));
  close_container = λ m. (pos 0, (m.0, m.1 ++ closing ∷ []));
  rewind_all = λ ts. pos 0;
  copy_all = λ ts m. (pos 0, (m.0, m.1 ++ ts));
  read_basic = read_item;
  read_array = read_items;
  enter_container = enter_list;
  exit_container = exit_list;
  at_end = λ m. if ends_here m.1 then pos 1 else pos 0;
  peek_type = λ m. peek_list m.1;
  copy_item = copy_list;
  seal = λ m. (pos 0, m);
  seal_copy = λ ts. pos 0;
  rewind = λ m. (pos 0, m);
}

abbrev pub token_append : AppendLaws token_bus
token_append = record {
  written = λ m. m.1;
  append_basic_lem = λ b p m h. refl;
  append_array_lem = λ b ps m h. refl;
  open_container_lem = λ c s m h. refl;
  close_container_lem = λ m h. refl;
  copy_all_lem = λ ts m h. refl;
  seal_lem = λ m h. refl;
}

payloads-items :
    (b : BasicType) (ps : List Payload) (ts : List Token)
    → payloads (items b ps ++ closing ∷ ts) ≡ (ps, ts)
unfolding payloads
payloads-items b [] ts = refl
payloads-items b (p ∷ ps) ts = rw (payloads-items b ps ts)

pub read_item_here :
    (b : BasicType) (p : Payload) (m : TokenMessage) (ts : List Token)
    → m.1 ≡ item b p ∷ ts
    → ((read_item b m).0 ≡ pos 1)
      × ((read_item b m).1 ≡ some p)
      × ((read_item b m).2.1 ≡ ts)
      × ((read_item b m).2.0 ≡ m.0)
unfolding read_item
read_item_here b p (cs, m) ts h = rw h (ground arith)

pub read_items_here :
    (b : BasicType) (ps : List Payload) (m : TokenMessage) (ts : List Token)
    → m.1 ≡ opening Container.array (type_code b ∷ []) ∷ (items b ps ++ closing ∷ ts)
    → ((read_items b m).0 ≡ pos 1)
      × ((read_items b m).1 ≡ ps)
      × ((read_items b m).2.1 ≡ ts)
      × ((read_items b m).2.0 ≡ m.0)
unfolding read_items
read_items_here b ps (cs, m) ts h = rw (h, payloads-items b ps ts) (refl, refl, refl, refl)

pub enter_list_here :
    (c : Container) (s : List ℕ) (m : TokenMessage) (ts : List Token)
    → m.1 ≡ opening c s ∷ ts
    → ((enter_list c s m).0 ≡ pos 1)
      × ((enter_list c s m).1.1 ≡ ts)
      × ((enter_list c s m).1.0 ≡ c ∷ m.0)
unfolding enter_list
enter_list_here c s (cs, m) ts h = rw h (refl, refl, refl)

pub exit_list_here :
    (m : TokenMessage) (c : Container) (cs : List Container) (ts : List Token)
    → m.0 ≡ c ∷ cs
    → m.1 ≡ closing ∷ ts
    → (is_neg (exit_list m).0 ≡ false) × ((exit_list m).1.1 ≡ ts) × ((exit_list m).1.0 ≡ cs)
unfolding exit_list
exit_list_here (ds, m) c cs ts inside h = rw (inside, h) (refl, refl, refl)

pub copy_list_here :
    (m : TokenMessage) (xs ts : List Token)
    → split_item 0 m.1 ≡ some (xs, ts)
    → ((copy_list [] m).0 ≡ pos 1)
      × ((copy_list [] m).1 ≡ xs)
      × ((copy_list [] m).2.1 ≡ ts)
      × ((copy_list [] m).2.0 ≡ m.0)
unfolding copy_list split_or_end
copy_list_here (cs, m) xs ts h = rw (h, split_or_end) (refl, refl, refl, refl)

pub peek_list_here :
    (c : Container) (s : List ℕ) (m ts : List Token)
    → m ≡ opening c s ∷ ts
    → peek_list m ≡ (pos 1, some s)
unfolding peek_list
peek_list_here c s m ts h = rw h

-- At the end of an array.
module _ (cs : List Container) (ts : List Token) where
  pub read_item_end :
      (b : BasicType) (m : TokenMessage)
      → m.0 ≡ Container.array ∷ cs
      → m.1 ≡ closing ∷ ts
      → ((read_item b m).0 ≡ pos 0)
        × ((read_item b m).1 ≡ none)
        × ((read_item b m).2.1 ≡ m.1)
        × ((read_item b m).2.0 ≡ m.0)
  unfolding read_item
  read_item_end b (ds, m) inside h = rw (inside, h) (refl, refl, refl, refl)

  pub read_items_end :
      (b : BasicType) (m : TokenMessage)
      → m.0 ≡ Container.array ∷ cs
      → m.1 ≡ closing ∷ ts
      → ((read_items b m).0 ≡ pos 0)
        × ((read_items b m).1 ≡ [])
        × ((read_items b m).2.1 ≡ m.1)
        × ((read_items b m).2.0 ≡ m.0)
  unfolding read_items
  read_items_end b (ds, m) inside h = rw (inside, h) (refl, refl, refl, refl)

  pub enter_list_end :
      (c : Container) (s : List ℕ) (m : TokenMessage)
      → m.0 ≡ Container.array ∷ cs
      → m.1 ≡ closing ∷ ts
      → ((enter_list c s m).0 ≡ pos 0)
        × ((enter_list c s m).1.1 ≡ m.1)
        × ((enter_list c s m).1.0 ≡ m.0)
  unfolding enter_list
  enter_list_end c s (ds, m) inside h = rw (inside, h) (refl, refl, refl)

  pub copy_list_end :
      (m : TokenMessage)
      → m.0 ≡ Container.array ∷ cs
      → m.1 ≡ closing ∷ ts
      → ((copy_list [] m).0 ≡ pos 0)
        × ((copy_list [] m).1 ≡ [])
        × ((copy_list [] m).2.1 ≡ m.1)
        × ((copy_list [] m).2.0 ≡ m.0)
  unfolding copy_list split_or_end
  copy_list_end (ds, m) inside h = rw (inside, h) (refl, refl, refl, refl)

abbrev pub token_read : ReadLaws token_bus
token_read = record {
  rest = λ m. m.1;
  containers = λ m. m.0;
  contents = λ m. m.1;
  read_basic_item = read_item_here;
  read_basic_end = λ b m cs ts. read_item_end cs ts b m;
  read_array_item = λ b ps m ts _ h. read_items_here b ps m ts h;
  read_array_end = λ b m cs ts. read_items_end cs ts b m;
  enter_container_item = enter_list_here;
  enter_container_end = λ c s m cs ts. enter_list_end cs ts c s m;
  exit_container_end = exit_list_here;
  at_end_lem = λ m cs h. refl;
  peek_type_item = λ c s m ts. peek_list_here c s m.1 ts;
  copy_item_item = copy_list_here;
  copy_item_end = λ m cs ts. copy_list_end cs ts m;
  seal_copy_item = λ ts h. refl;
  seal_copy_nil = refl;
  rewind_lem = λ m h. (refl, refl, h);
}

-- The same contents, outside of any container.
abbrev pub of_tokens : List Token → TokenMessage
of_tokens ts = ([], ts)
