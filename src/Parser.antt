-- ===== src/Parser.antt =====
-- lib/type/DIParser.cpp: the parser of a type. It is a visitor of the metadata that raises an event for
-- each type that it comes to, between the events that open and close a composite.
pub mod Callbacks
pub mod Types
pub mod Nesting
use llvm_dimeta.Base.{ℕ, String, Bool, true, false, none, List, [], ◌∷◌}
use llvm_dimeta.Metadata.{Tag, Ptr}

-- CustomDwarfTag
abbrev pub vector_tag : Tag
vector_tag = 65534

pub record ArrayData : Type 0 where
  pub array_size_bits : ℕ
  pub array_of_pointer : ℕ
  pub subranges : List ℕ
  pub is_vector : Bool

-- The fields vtable_size and vtable_offset, which nothing sets or reads, are left out.
pub record MetaData : Type 0 where
  pub type : Ptr
  pub member_offset : ℕ
  pub member_size : ℕ
  pub arrays : List ArrayData
  pub member_name : String
  pub typedef_names : List String
  pub dwarf_tags : List Tag
  pub is_member : Bool
  pub is_member_static : Bool
  pub is_base_class : Bool
  pub has_vtable : Bool
  pub is_recurring : Bool
  pub is_void_ptr : Bool
  pub is_vector : Bool
  pub is_forward_decl : Bool
  pub derived_size : ℕ

abbrev pub no_meta_data : MetaData
no_meta_data = record {
  type = none;
  member_offset = 0;
  member_size = 0;
  arrays = [];
  member_name = "";
  typedef_names = [];
  dwarf_tags = [];
  is_member = false;
  is_member_static = false;
  is_base_class = false;
  has_vtable = false;
  is_recurring = false;
  is_void_ptr = false;
  is_vector = false;
  is_forward_decl = false;
  derived_size = 0;
}

-- The calls of DIParseEvents
pub data Event : Type 0 where
  make_fundamental make_function_ptr make_void_ptr make_string : MetaData → Event
  make_vtable make_enum_member make_composite finalize_composite : MetaData → Event

-- DIEventVisitor. The stack's top is the head; so is the last event.
pub record EventVisitor : Type 0 where
  pub current : MetaData
  pub stack : List MetaData
  pub enum_base : Ptr
  pub is_enum : Bool
  pub events : List Event

abbrev pub new_visitor : EventVisitor
new_visitor = record {
  current = no_meta_data;
  stack = [];
  enum_base = none;
  is_enum = false;
  events = [];
}

abbrev pub raise : Event → EventVisitor → EventVisitor
raise e s = record s { events = e ∷ s.events }

abbrev pub clear : EventVisitor → EventVisitor
clear s = record s { current = no_meta_data }

abbrev pub not_empty {ℓ} : {A : Type ℓ} → List A → Bool
not_empty [] = false
not_empty (x ∷ xs) = true

abbrev pub change_back {ℓ} : {A : Type ℓ} → (A → A) → List A → List A
change_back f [] = []
change_back f (x ∷ []) = f x ∷ []
change_back f (x ∷ y ∷ xs) = x ∷ change_back f (y ∷ xs)
