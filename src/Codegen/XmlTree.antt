-- ===== src/Codegen/XmlTree.antt =====
-- The tree of XML elements: `Node` of tools/xml2cpp-codegen/xml.h with what the parser's handlers do
-- to one (tools/xml2cpp-codegen/xml.cpp).
use sdbus_cpp.Prelude.{
  ℕ, zero, suc, Bool, true, false, ◌&&◌, ◌||◌, leb, ◌==◌, if◌then◌else◌, none, some, List, [], ◌∷◌,
  get_elem?,
}
use sdbus_cpp.Codegen.Text.{Text}

-- A `std::map` from names of attributes to their values, without its order.
abbrev pub Attributes : Type 0
Attributes = List (Text × Text)

-- A node has its name, its attributes, its text and its children. The last child stands outermost.
mutual
  pub data Node : Type 0 where
    node : (name : Text) → (attrs : Attributes) → (cdata : Text) → (children : Nodes) → Node

  pub data Nodes : Type 0 where
    no_nodes : Nodes
    and_last : Nodes → Node → Nodes

unfoldable pub is_same : Text → Text → Bool
is_same [] [] = true
is_same [] (y ∷ ys) = false
is_same (x ∷ xs) [] = false
is_same (x ∷ xs) (y ∷ ys) = (x == y) && is_same xs ys

-- `m_attrs[key] = value`
unfoldable pub assign : Text → Text → Attributes → Attributes
unfolding is_same
assign key value [] = (key, value) ∷ []
assign key value ((k, v) ∷ attrs) =
    let rest = assign key value attrs in if is_same k key then (k, value) ∷ attrs else (k, v) ∷ rest

unfoldable pub assign_all : List (Text × Text) → Attributes → Attributes
unfolding assign
assign_all [] attrs = attrs
assign_all ((key, value) ∷ rest) attrs = assign_all rest (assign key value attrs)

-- The constructor of a node.
unfoldable pub new_node : Text → List (Text × Text) → Node
unfolding assign_all
new_node name atts = node name (assign_all atts []) [] no_nodes

-- `children.push_back(child)`
unfoldable pub add_child : Node → Node → Node
add_child child (node name attrs cdata children) = node name attrs cdata (and_last children child)

-- `isspace`
unfoldable pub is_space : ℕ → Bool
is_space c = (c == b' ') || (leb 9 c && leb c 13)

-- The character at a place; behind the text there are zeros.
unfoldable pub char_at : Text → ℕ → ℕ
char_at chars i = elim (get_elem? chars i) [ some c ↦ c | none ↦ 0 ]

-- `while (isspace(chars[y]) && y > 0) --y;`
unfoldable pub last_char : Text → ℕ → ℕ
unfolding char_at is_space
last_char chars zero = zero
last_char chars (suc y) =
    let before = last_char chars y in if is_space (char_at chars (suc y)) then before else suc y

-- `while (isspace(chars[x]) && x < y) ++x;`, with the distance to `y`.
unfoldable pub first_char : Text → ℕ → ℕ → ℕ
unfolding char_at is_space
first_char chars x zero = x
first_char chars x (suc distance) =
    let after = first_char chars (suc x) distance in if is_space (char_at chars x) then after else x

unfoldable pub drop_chars : ℕ → Text → Text
drop_chars zero chars = chars
drop_chars (suc n) [] = []
drop_chars (suc n) (c ∷ chars) = drop_chars n chars

unfoldable pub take_chars : ℕ → Text → Text
take_chars zero chars = []
take_chars (suc n) [] = []
take_chars (suc n) (c ∷ chars) = c ∷ take_chars n chars

-- `nod->cdata = std::string(chars, x, y + 1)`: the characters from `x`, `y + 1` of them. `chars` is
-- the text up to a zero, and `last` is the place of the last character that the parser announced.
unfoldable pub set_cdata : (chars : Text) → (last : ℕ) → Node → Node
unfolding last_char first_char drop_chars take_chars
set_cdata chars last (node name attrs cdata children) =
    let y = last_char chars last in
    let x = first_char chars 0 y in
    node name attrs (take_chars (suc y) (drop_chars x chars)) children
