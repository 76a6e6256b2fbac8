-- ===== src/Metadata.antt =====
-- The debug metadata that lib/type reads: llvm::DINode and its subclasses, as values of a graph.
-- A node is named by a number, which stands for the pointer to it; an optional number is a pointer
-- that may be null. The graph may have cycles, as a struct with a pointer to itself has.
mod Dwarf
pub mod Chain
use llvm_dimeta.Base.{test_bit, ℕ, ◌*◌, String, Bool, Option, none, some, List}
use Dwarf.{
  dw_tag_string_type, dw_tag_subroutine_type, dw_tag_enumerator, dw_tag_subrange_type,
  dw_tag_variable, flag_fwd_decl_bit, flag_vector_bit, flag_static_member_bit,
}
pub use Dwarf.*

abbrev pub NodeId : Type 0
NodeId = ℕ

pub record BasicType : Type 0 where
  pub tag : Tag
  pub name : String
  pub flags : ℕ
  pub size_in_bits : ℕ
  pub encoding : ℕ

pub record DerivedType : Type 0 where
  pub tag : Tag
  pub name : String
  pub flags : ℕ
  pub offset_in_bits : ℕ
  pub size_in_bits : ℕ
  pub base_type : Option NodeId

pub record CompositeType : Type 0 where
  pub tag : Tag
  pub name : String
  pub identifier : String
  pub flags : ℕ
  pub size_in_bits : ℕ
  pub base_type : Option NodeId
  pub elements : List NodeId
  pub associated : Bool
  pub vtable_holder : Option NodeId

pub record Variable : Type 0 where
  pub name : String
  pub file : String
  pub scope_name : Option String
  pub line : ℕ
  pub type : Option NodeId

pub data DiNode : Type 0 where
  basic : BasicType → DiNode
  derived : DerivedType → DiNode
  composite : CompositeType → DiNode
  -- name and size in bits
  string_type : String → ℕ → DiNode
  -- the types of the result and of the parameters
  subroutine : List (Option NodeId) → DiNode
  enumerator : String → DiNode
  -- a constant count, its sign apart: `some (negative, limited value)`
  subrange : Option (record { is_negative : Bool; limited_value : ℕ }) → DiNode
  local_variable : Variable → DiNode
  global_variable : Variable → DiNode
  -- what the code only asks for its tag, such as the DISubprogram of a method
  other : Tag → DiNode

-- A pointer to a node is never dangling.
abbrev pub Metadata : Type 0
Metadata = NodeId → DiNode

-- DINode::getTag
abbrev pub get_tag : DiNode → Tag
get_tag (basic b) = b.tag
get_tag (derived d) = d.tag
get_tag (composite c) = c.tag
get_tag (string_type n s) = dw_tag_string_type
get_tag (subroutine ts) = dw_tag_subroutine_type
get_tag (enumerator n) = dw_tag_enumerator
get_tag (subrange c) = dw_tag_subrange_type
get_tag (local_variable v) = dw_tag_variable
get_tag (global_variable v) = dw_tag_variable
get_tag (other t) = t

-- DIType::getSizeInBits; a node that is no type has none.
abbrev pub get_size_in_bits : DiNode → ℕ
get_size_in_bits (basic b) = b.size_in_bits
get_size_in_bits (derived d) = d.size_in_bits
get_size_in_bits (composite c) = c.size_in_bits
get_size_in_bits (string_type n s) = s
get_size_in_bits _ = 0

-- llvm::dyn_cast to the two classes that the code casts to most
abbrev pub as_derived : DiNode → Option DerivedType
as_derived (derived d) = some d
as_derived _ = none

abbrev pub as_composite : DiNode → Option CompositeType
as_composite (composite c) = some c
as_composite _ = none

-- isStaticMember, isForwardDecl and isVector read one bit of the flags.
abbrev pub is_static_member : DerivedType → Bool
is_static_member d = test_bit d.flags flag_static_member_bit

abbrev pub is_forward_decl : CompositeType → Bool
is_forward_decl c = test_bit c.flags flag_fwd_decl_bit

abbrev pub is_vector : CompositeType → Bool
is_vector c = test_bit c.flags flag_vector_bit

-- A pointer that may be null, as a function returns it
abbrev pub Ptr : Type 0
Ptr = Option NodeId
