-- ===== src/Codegen/XmlParse.antt =====
-- What the XML parser's events do to a document: `Document::Expat` of
-- tools/xml2cpp-codegen/xml.cpp. The parser itself, expat, is not modelled; it reports an element's
-- start, then its contents, then its end.
use sdbus_cpp.Prelude.{ℕ, zero, suc, Option, none, some, List, [], ◌∷◌}
use sdbus_cpp.Codegen.Text.{Text}
use sdbus_cpp.Codegen.XmlTree.{
  Node, node, Nodes, no_nodes, and_last, new_node, add_child, set_cdata,
}

pub record Document : Type 0 where
  pub root : Option Node
  pub depth : ℕ

-- from_xml begins with this.
abbrev pub empty_document : Document
empty_document = record { root = none; depth = 0 }

pub data XmlEvent : Type 0 where
  start_element : Text → List (Text × Text) → XmlEvent
  character_data : Text → ℕ → XmlEvent
  end_element : XmlEvent

-- In front of the last child of a node, if there is one; `back()` of no children is undefined.
abbrev pub behind : Text → List (Text × Text) → Text → Nodes → Option Node → Option Node
behind name attrs cdata children none = none
behind name attrs cdata children (some k) = some (node name attrs cdata (and_last children k))

-- `for (int i = 1; i < m_depth; ++i)` goes down to the last child; there the change is made.
unfoldable pub at_depth : ℕ → (Node → Node) → Node → Option Node
at_depth zero change n = some (change n)
at_depth (suc d) change (node name attrs cdata no_nodes) = none
at_depth (suc d) change (node name attrs cdata (and_last children k)) =
    behind name attrs cdata children (at_depth d change k)

-- The depth after an end. There is none without a start before it.
abbrev pub one_less : ℕ → ℕ
one_less zero = zero
one_less (suc n) = n

abbrev pub with_root : ℕ → Option Node → Option Document
with_root depth none = none
with_root depth (some root) = some (record { root = some root; depth = depth })

-- There is no result where the behaviour is undefined.
unfoldable pub handle : XmlEvent → Document → Option Document
unfolding at_depth new_node add_child set_cdata
handle (start_element name atts) doc = elim doc.root [
  | none ↦ some (record { root = some (new_node name atts); depth = suc doc.depth })
  | some root ↦
      with_root (suc doc.depth)
        (at_depth (one_less doc.depth) (add_child (new_node name atts)) root)
]
handle (character_data chars last) doc = elim doc.root [
  | none ↦ none
  | some root ↦ with_root doc.depth (at_depth (one_less doc.depth) (set_cdata chars last) root)
]
handle end_element doc = some (record doc { depth = one_less doc.depth })

unfoldable pub handle_all : List XmlEvent → Document → Option Document
unfolding handle
handle_all [] doc = some doc
handle_all (e ∷ es) doc = elim (handle e doc) [ none ↦ none | some next ↦ handle_all es next ]
