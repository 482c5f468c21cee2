-- ===== src/Codegen/XmlTests.antt =====
-- The text of an XML element.
use sdbus_cpp.Prelude.{[], ◌≡◌, refl}
use sdbus_cpp.Codegen.Text.{codes}
use sdbus_cpp.Codegen.XmlTree.{node, no_nodes, set_cdata}

-- Blanks in front of the text lead to as many characters of the following markup at its end.
text_overruns :
    set_cdata (codes "  hi</node>") 3 (node (codes "node") [] [] no_nodes)
    ≡ node (codes "node") [] (codes "hi</") no_nodes
unfolding set_cdata
text_overruns = refl
