-- ===== src/DimetaParse/Qualify.antt =====
-- The helpers of lib/type/DimetaParse.cpp: from the metadata of an event to a qualified type.
use llvm_dimeta.Base.{
  ltb, ◌==◌, if◌then◌else◌, has_value, u64_mod, Outcome, done, ◌>>=◌, ◌>>◌, deref, assert, ℕ, ◌*◌,
  ◌/◌, ◌%◌, String, Bool, true, false, not, ◌&&◌, ◌||◌, List, [], ◌∷◌, ◌++◌, map, str_eq, find?,
}
use llvm_dimeta.Metadata.{
  Tag, dw_tag_array_type, dw_tag_class_type, dw_tag_enumeration_type, dw_tag_pointer_type,
  dw_tag_reference_type, dw_tag_structure_type, dw_tag_union_type, dw_tag_ptr_to_member_type,
  dw_tag_const_type, CompositeType, Metadata, get_size_in_bits,
}
use llvm_dimeta.QualifiedType.{
  Qualifier, no_qualifier, pointer, reference, const, ptr_to_member, array, vector, static,
  FundamentalType, CompoundTag, unknown_tag, struct_tag, class_tag, union_tag, enum_tag,
  Qualification, CompoundType, compound_type, no_members, no_bases,
}
use llvm_dimeta.Parser.{vector_tag, ArrayData, MetaData}
use llvm_dimeta.DimetaParse.Encoding

unfoldable pub dwarf2compound : Tag → CompoundTag
dwarf2compound tag =
    if tag == dw_tag_enumeration_type
    then enum_tag
    else if tag == dw_tag_class_type
    then class_tag
    else if tag == dw_tag_structure_type
    then struct_tag
    else if tag == dw_tag_union_type
    then union_tag
    else unknown_tag

-- By the numbers of the DWARF standard: DW_ATE_boolean 2, complex_float 3, float 4, signed 5,
-- signed_char 6, unsigned 7, unsigned_char 8, UTF 16.
unfoldable pub dwarf2encoding : ℕ → ℕ
dwarf2encoding di_encoding =
    if di_encoding == 4
    then 1
    else if di_encoding == 5
    then 12
    else if di_encoding == 7
    then 20
    else if di_encoding == 8
    then 18
    else if di_encoding == 6
    then 10
    else if di_encoding == 2
    then 32
    else if di_encoding == 16
    then 1024
    else if di_encoding == 3
    then 2048
    else Encoding.unknown

unfoldable pub dwarf2qual : Tag → Qualifier
dwarf2qual tag =
    if tag == dw_tag_pointer_type
    then pointer
    else if tag == dw_tag_reference_type
    then reference
    else if tag == dw_tag_const_type
    then const
    else if tag == dw_tag_ptr_to_member_type
    then ptr_to_member
    else if tag == dw_tag_array_type
    then array
    else if tag == vector_tag
    then vector
    else no_qualifier

abbrev pub is_qualifier : Qualifier → Bool
is_qualifier no_qualifier = false
is_qualifier _ = true

-- copy_if, then transform
unfoldable pub make_qualifiers : List Tag → List Qualifier
unfolding dwarf2qual
make_qualifiers [] = []
make_qualifiers (tag ∷ tags) =
    if is_qualifier (dwarf2qual tag)
    then dwarf2qual tag ∷ make_qualifiers tags
    else make_qualifiers tags

-- std::accumulate of a product of 64-bit numbers
unfoldable pub product : ℕ → List ℕ → ℕ
product sum [] = sum
product sum (n ∷ ns) = product ((sum * n) % u64_mod) ns

unfoldable pub make_array_sizes : List ArrayData → List ℕ
unfolding product
make_array_sizes arrays = map (λ a. product 1 a.subranges) arrays

-- The loop over the arrays, which asserts that there is one vector
unfoldable pub vector_size_of : ℕ → List ArrayData → Outcome ℕ
vector_size_of vec_size [] = done vec_size
vector_size_of vec_size (a ∷ rest) =
    if a.is_vector
    then assert (vec_size == 0) >> vector_size_of (a.array_size_bits / 8) rest
    else vector_size_of vec_size rest

-- make_qual_type: the fields other than the type
unfoldable pub make_qual_type : MetaData → Outcome Qualification
unfolding make_qualifiers make_array_sizes vector_size_of
make_qual_type m = do
  vec_size ← vector_size_of 0 m.arrays
  done (record {
    array_size = make_array_sizes m.arrays;
    qual = make_qualifiers m.dwarf_tags ++ (if m.is_member_static then static ∷ [] else []);
    typedef_name = elim m.typedef_names [ [] ↦ "" | n ∷ ns ↦ n ];
    vector_size = vec_size;
    is_vector = m.is_vector;
    is_forward_decl = m.is_forward_decl;
    is_recurring = m.is_recurring;
  })

unfoldable pub make_compound : CompositeType → CompoundType
unfolding dwarf2compound
make_compound c =
    compound_type
      (record {
        name = c.name;
        identifier = c.identifier;
        type = dwarf2compound c.tag;
        extent = c.size_in_bits / 8;
        offsets = [];
        sizes = [];
      })
      no_bases no_members no_members

-- The size in bytes of a fundamental type; a pointer takes 8.
unfoldable pub size_of_fundamental : MetaData → ℕ → ℕ → ℕ
size_of_fundamental m encoding size =
    if not (size == 0)
    then size
    else if encoding == Encoding.null_ptr || encoding == Encoding.function_ptr
    then (if ltb 0 m.member_size
        then m.member_size
        else if ltb 0 m.derived_size
        then m.derived_size
        else 8)
    else if encoding == Encoding.string
    then 1
    else size

module _ (g : Metadata) where
  unfoldable pub make_fundamental_type : MetaData → String → ℕ → Outcome FundamentalType
  unfolding size_of_fundamental
  make_fundamental_type m name encoding = do
    t ← deref m.type
    done (record {
      name = name;
      extent = size_of_fundamental m encoding (get_size_in_bits (g t) / 8);
      encoding = encoding;
    })

-- The encoding of a basic type: a name with `nullptr` in it is that of a null pointer.
unfoldable pub encoding_of : String → ℕ → ℕ
unfolding dwarf2encoding
encoding_of name di_encoding =
    if not (str_eq name "") && has_value (find? name "nullptr")
    then Encoding.null_ptr
    else dwarf2encoding di_encoding
