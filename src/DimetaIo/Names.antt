-- ===== src/DimetaIo/Names.antt =====
-- The enumerations of lib/type/DimetaIO.cpp, by the names in the document.
use llvm_dimeta.Base.{◌==◌, if◌then◌else◌, ℕ, String, Option, none, some, List, [], ◌∷◌, str_eq}
use llvm_dimeta.QualifiedType.{
  Qualifier, no_qualifier, pointer, reference, const, ptr_to_member, array, vector, static,
  CompoundTag, unknown_tag, struct_tag, class_tag, union_tag, enum_tag, enum_class_tag,
}
use llvm_dimeta.DimetaIo.{Yaml, text}

-- enumCase while writing and while reading: the first case that fits
unfoldable pub name_of_case : List (ℕ × String) → ℕ → Option String
name_of_case [] n = none
name_of_case ((m, s) ∷ cases) n = let rest = name_of_case cases n in if m == n then some s else rest

unfoldable pub case_of_name : List (ℕ × String) → String → Option ℕ
case_of_name [] s = none
case_of_name ((m, t) ∷ cases) s =
    let rest = case_of_name cases s in if str_eq t s then some m else rest

abbrev pub encodings : List (ℕ × String)
encodings =
    (0, "unknown")
    ∷ (32, "bool")
    ∷ (2, "char")
    ∷ (1, "float")
    ∷ (4, "int")
    ∷ (8, "signed")
    ∷ (16, "unsigned")
    ∷ (10, "signed_char")
    ∷ (18, "unsigned_char")
    ∷ (12, "signed_int")
    ∷ (20, "unsigned_int")
    ∷ (64, "padding")
    ∷ (128, "void_ptr")
    ∷ (256, "vtable_ptr")
    ∷ (512, "nullptr")
    ∷ (1024, "utf_char")
    ∷ (2048, "complex")
    ∷ (4096, "function_ptr")
    ∷ (8192, "string")
    ∷ []

unfoldable pub tag_name : CompoundTag → String
tag_name class_tag = "class"
tag_name struct_tag = "struct"
tag_name union_tag = "union"
tag_name enum_tag = "enum"
tag_name enum_class_tag = "enum_class"
tag_name unknown_tag = "unknown"

unfoldable pub read_tag : Yaml → Option CompoundTag
read_tag (text s) =
    if str_eq s "class"
    then some class_tag
    else if str_eq s "struct"
    then some struct_tag
    else if str_eq s "union"
    then some union_tag
    else if str_eq s "enum"
    then some enum_tag
    else if str_eq s "enum_class"
    then some enum_class_tag
    else if str_eq s "unknown"
    then some unknown_tag
    else none
read_tag _ = none

unfoldable pub qualifier_name : Qualifier → String
qualifier_name no_qualifier = "none"
qualifier_name const = "const"
qualifier_name pointer = "ptr"
qualifier_name reference = "ref"
qualifier_name ptr_to_member = "ptr_to_mem"
qualifier_name array = "array"
qualifier_name vector = "vector"
qualifier_name static = "static"

unfoldable pub read_qualifier : Yaml → Option Qualifier
read_qualifier (text s) =
    if str_eq s "none"
    then some no_qualifier
    else if str_eq s "const"
    then some const
    else if str_eq s "ptr"
    then some pointer
    else if str_eq s "ref"
    then some reference
    else if str_eq s "ptr_to_mem"
    then some ptr_to_member
    else if str_eq s "array"
    then some array
    else if str_eq s "vector"
    then some vector
    else if str_eq s "static"
    then some static
    else none
read_qualifier _ = none
