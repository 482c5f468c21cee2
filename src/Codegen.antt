-- ===== src/Codegen.antt =====
-- tools/xml2cpp-codegen: the generator of C++ classes from D-Bus introspection XML.
pub mod Text
pub mod Signature
pub mod Total
pub mod TypeName
pub mod Pieces
pub mod Naming
pub mod Names
pub mod XmlTree
pub mod XmlParse
mod XmlTests
mod Tests
