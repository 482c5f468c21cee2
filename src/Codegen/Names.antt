-- ===== src/Codegen/Names.antt =====
-- Names of generated classes and members: tools/xml2cpp-codegen/generator_utils.cpp.
use sdbus_cpp.Prelude.{
  ℕ, Bool, true, false, ◌||◌, ◌&&◌, List, [], ◌∷◌, ◌++◌, ◌≡◌, arith, All, leb, ◌==◌, if◌then◌else◌,
}
use sdbus_cpp.Object.Names.{name_eq}
use sdbus_cpp.Codegen.Text.{Text, codes}

-- isalpha and isdigit in the C locale.
unfoldable pub is_alpha : ℕ → Bool
is_alpha c = (leb 65 c && leb c 90) || (leb 97 c && leb c 122)

unfoldable pub is_digit : ℕ → Bool
is_digit c = leb 48 c && leb c 57

unfoldable pub underscorize : Text → Text
unfolding is_alpha is_digit
underscorize [] = []
underscorize (c ∷ s) = (if is_alpha c || is_digit c then c else b'_') ∷ underscorize s

unfoldable pub stub_name : Text → Text
unfolding underscorize
stub_name name = codes "_" ++ (underscorize name ++ codes "_stub")

-- Letters, digits and underscores are what is left.
underscorize-IsWord :
    (s : Text) → All (λ c. (is_alpha c || (is_digit c || c == b'_')) ≡ true) (underscorize s)
unfolding underscorize
underscorize-IsWord [] = tt
underscorize-IsWord (c ∷ s) = (ground arith, underscorize-IsWord s)

-- A name that is reserved in C++ gets an underscore.
unfoldable pub is_member : Text → List Text → Bool
is_member name [] = false
is_member name (r ∷ rs) = name_eq name r || is_member name rs

-- tools/xml2cpp-codegen/reserved_names.h
abbrev pub reserved_names : List Text
reserved_names =
    codes "alignas"
    ∷ codes "alignof"
    ∷ codes "and"
    ∷ codes "and_eq"
    ∷ codes "asm"
    ∷ codes "atomic_cancel"
    ∷ codes "atomic_commit"
    ∷ codes "atomic_noexcept"
    ∷ codes "auto"
    ∷ codes "bitand"
    ∷ codes "bitor"
    ∷ codes "bool"
    ∷ codes "break"
    ∷ codes "case"
    ∷ codes "catch"
    ∷ codes "char"
    ∷ codes "char8_t"
    ∷ codes "char16_t"
    ∷ codes "char32_t"
    ∷ codes "class"
    ∷ codes "compl"
    ∷ codes "concept"
    ∷ codes "const"
    ∷ codes "consteval"
    ∷ codes "constexpr"
    ∷ codes "constinit"
    ∷ codes "const_cast"
    ∷ codes "continue"
    ∷ codes "co_await"
    ∷ codes "co_return"
    ∷ codes "co_yield"
    ∷ codes "decltype"
    ∷ codes "default"
    ∷ codes "delete"
    ∷ codes "do"
    ∷ codes "double"
    ∷ codes "dynamic_cast"
    ∷ codes "else"
    ∷ codes "enum"
    ∷ codes "explicit"
    ∷ codes "export"
    ∷ codes "extern"
    ∷ codes "false"
    ∷ codes "float"
    ∷ codes "for"
    ∷ codes "friend"
    ∷ codes "goto"
    ∷ codes "if"
    ∷ codes "inline"
    ∷ codes "int"
    ∷ codes "long"
    ∷ codes "mutable"
    ∷ codes "namespace"
    ∷ codes "new"
    ∷ codes "noexcept"
    ∷ codes "not"
    ∷ codes "not_eq"
    ∷ codes "nullptr"
    ∷ codes "operator"
    ∷ codes "or"
    ∷ codes "or_eq"
    ∷ codes "private"
    ∷ codes "protected"
    ∷ codes "public"
    ∷ codes "reflexpr"
    ∷ codes "register"
    ∷ codes "reinterpret_cast"
    ∷ codes "requires"
    ∷ codes "return"
    ∷ codes "short"
    ∷ codes "signed"
    ∷ codes "sizeof"
    ∷ codes "static"
    ∷ codes "static_assert"
    ∷ codes "static_cast"
    ∷ codes "struct"
    ∷ codes "switch"
    ∷ codes "synchronized"
    ∷ codes "template"
    ∷ codes "this"
    ∷ codes "thread_local"
    ∷ codes "throw"
    ∷ codes "true"
    ∷ codes "try"
    ∷ codes "typedef"
    ∷ codes "typeid"
    ∷ codes "typename"
    ∷ codes "union"
    ∷ codes "unsigned"
    ∷ codes "using"
    ∷ codes "virtual"
    ∷ codes "void"
    ∷ codes "volatile"
    ∷ codes "wchar_t"
    ∷ codes "while"
    ∷ codes "xor"
    ∷ codes "xor_eq"
    ∷ codes "NULL"
    ∷ []

unfoldable pub mangle_name : Text → Text
unfolding is_member name_eq
mangle_name name = if is_member name reserved_names then name ++ codes "_" else name
