-- ===== src/QualifiedType.antt =====
-- lib/type/DimetaData.h: the types that the library returns.
use llvm_dimeta.Base.{ℕ, String, Bool, List}

pub data Qualifier : Type 0 where
  no_qualifier pointer reference const ptr_to_member array vector static : Qualifier

-- FundamentalType; its encoding is the flag word.
pub record FundamentalType : Type 0 where
  pub name : String
  pub extent : ℕ
  pub encoding : ℕ

pub data CompoundTag : Type 0 where
  unknown_tag struct_tag class_tag union_tag enum_tag enum_class_tag : CompoundTag

-- The fields of QualType other than `type`
pub record Qualification : Type 0 where
  pub array_size : List ℕ
  pub qual : List Qualifier
  pub typedef_name : String
  pub vector_size : ℕ
  pub is_vector : Bool
  pub is_forward_decl : Bool
  pub is_recurring : Bool

-- The fields of CompoundType other than the bases and the members
pub record CompoundHead : Type 0 where
  pub name : String
  pub identifier : String
  pub type : CompoundTag
  pub extent : ℕ
  pub offsets : List ℕ
  pub sizes : List ℕ

mutual
  -- CompoundType: its bases, its members and its static members
  pub data CompoundType : Type 0 where
    compound_type : CompoundHead → Bases → Members → Members → CompoundType

  -- QualifiedType, the variant of the two instances of QualType
  pub data QualifiedType : Type 0 where
    qualified_compound : CompoundType → Qualification → QualifiedType
    qualified_fundamental : FundamentalType → Qualification → QualifiedType

  pub data Members : Type 0 where
    no_members : Members
    and_member : String → QualifiedType → Members → Members

  -- A BaseClass: its type, its offset, and whether it is empty
  pub data Bases : Type 0 where
    no_bases : Bases
    and_base : CompoundType → Qualification → ℕ → Bool → Bases → Bases

-- location::SourceLocation
pub record SourceLocation : Type 0 where
  pub file : String
  pub function : String
  pub line : ℕ

pub record LocatedType : Type 0 where
  pub type : QualifiedType
  pub location : SourceLocation

abbrev pub qualification : QualifiedType → Qualification
qualification (qualified_compound c q) = q
qualification (qualified_fundamental f q) = q

abbrev pub with_qualification : QualifiedType → Qualification → QualifiedType
with_qualification (qualified_compound c q) r = qualified_compound c r
with_qualification (qualified_fundamental f q) r = qualified_fundamental f r
