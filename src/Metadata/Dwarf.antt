-- ===== src/Metadata/Dwarf.antt =====
-- The DWARF tags and encodings by which lib/type tells metadata nodes apart, with the numbers of the
-- DWARF standard, and the flags of llvm::DINode.
use llvm_dimeta.Base.{ℕ}

abbrev pub Tag : Type 0
Tag = ℕ

abbrev pub dw_tag_array_type : Tag
dw_tag_array_type = 0x01

abbrev pub dw_tag_class_type : Tag
dw_tag_class_type = 0x02

abbrev pub dw_tag_enumeration_type : Tag
dw_tag_enumeration_type = 0x04

abbrev pub dw_tag_member : Tag
dw_tag_member = 0x0d

abbrev pub dw_tag_pointer_type : Tag
dw_tag_pointer_type = 0x0f

abbrev pub dw_tag_reference_type : Tag
dw_tag_reference_type = 0x10

abbrev pub dw_tag_string_type : Tag
dw_tag_string_type = 0x12

abbrev pub dw_tag_structure_type : Tag
dw_tag_structure_type = 0x13

abbrev pub dw_tag_subroutine_type : Tag
dw_tag_subroutine_type = 0x15

abbrev pub dw_tag_typedef : Tag
dw_tag_typedef = 0x16

abbrev pub dw_tag_union_type : Tag
dw_tag_union_type = 0x17

abbrev pub dw_tag_inheritance : Tag
dw_tag_inheritance = 0x1c

abbrev pub dw_tag_ptr_to_member_type : Tag
dw_tag_ptr_to_member_type = 0x1f

abbrev pub dw_tag_subrange_type : Tag
dw_tag_subrange_type = 0x21

abbrev pub dw_tag_base_type : Tag
dw_tag_base_type = 0x24

abbrev pub dw_tag_const_type : Tag
dw_tag_const_type = 0x26

abbrev pub dw_tag_enumerator : Tag
dw_tag_enumerator = 0x28

abbrev pub dw_tag_variable : Tag
dw_tag_variable = 0x34

-- FlagFwdDecl, FlagVector and FlagStaticMember of llvm::DINode: the bit, and the word of the last.
abbrev pub flag_fwd_decl_bit : ℕ
flag_fwd_decl_bit = 2

abbrev pub flag_vector_bit : ℕ
flag_vector_bit = 11

abbrev pub flag_static_member_bit : ℕ
flag_static_member_bit = 12

abbrev pub flag_static_member : ℕ
flag_static_member = 4096
