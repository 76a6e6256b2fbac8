-- ===== src/Examples.antt =====
-- The program that the examples are about: `struct Pair { int a; int b; Pair* next; }`, a local
-- variable `Pair* p`, and `p = malloc(...)`.
mod Types
mod Nested
mod Bytes
mod Search
mod Allocation
mod Parsing
mod Flang
mod Roots
mod Building
mod Extracting
mod Tags
mod Documents
use llvm_dimeta.Calls.{stack, DimetaData}
use llvm_dimeta.Base.{get_or, ℕ, String, true, false, none, some, List, [], ◌∷◌}
use llvm_dimeta.Metadata.{
  dw_tag_member, dw_tag_pointer_type, dw_tag_structure_type, dw_tag_base_type, dw_tag_variable,
  NodeId, DerivedType, CompositeType, Variable, DiNode, basic, derived, composite, local_variable,
  other, Metadata,
}
use llvm_dimeta.Ir.{ValueId, no_intrinsic, Call, alloca, store, call, other_value, Ir}
use llvm_dimeta.ValuePath.{ValuePath, value}

abbrev member : String → ℕ → ℕ → NodeId → DiNode
member name offset size base = derived (record {
  tag = dw_tag_member;
  name = name;
  flags = 0;
  offset_in_bits = offset;
  size_in_bits = size;
  base_type = some base;
})

abbrev pair_type : CompositeType
pair_type = record {
  tag = dw_tag_structure_type;
  name = "Pair";
  identifier = "";
  flags = 0;
  size_in_bits = 128;
  base_type = none;
  elements = 2 ∷ 3 ∷ 4 ∷ [];
  associated = false;
  vtable_holder = none;
}

abbrev pointer_to_pair : DerivedType
pointer_to_pair = record {
  tag = dw_tag_pointer_type;
  name = "";
  flags = 0;
  offset_in_bits = 0;
  size_in_bits = 64;
  base_type = some 1;
}

abbrev variable_p : Variable
variable_p = record {
  name = "p";
  file = "pair.c";
  scope_name = some "main";
  line = 7;
  type = some 5;
}

abbrev nodes : List DiNode
nodes =
    basic
      (record { tag = dw_tag_base_type; name = "int"; flags = 0; size_in_bits = 32; encoding = 5 })
    ∷ composite pair_type
    ∷ member "a" 0 32 0
    ∷ member "b" 32 32 0
    ∷ member "next" 64 64 5
    ∷ derived pointer_to_pair
    ∷ local_variable variable_p
    ∷ []

abbrev graph : Metadata
graph n = get_or nodes n (other dw_tag_variable)

abbrev malloc_call : Call
malloc_call = record {
  arguments = [];
  callee = some (record { name = "malloc"; subprogram = none });
  intrinsic = no_intrinsic;
  heapallocsite = none;
}

-- 0 is the call, 1 the store, 2 the alloca of `p`.
abbrev program : Ir
program = record {
  value = λ v.
      get_or (call true malloc_call ∷ store (record { value = 0; pointer = 2 }) ∷ alloca ∷ []) v
        other_value;
  users = λ v. get_or ((1 ∷ []) ∷ [] ∷ (1 ∷ []) ∷ []) v [];
  debug_loc = λ v. none;
}

abbrev path : List ValueId → ValuePath
path vs = record { path_to_value = vs }

-- The local variable `p`
abbrev stack_data : DimetaData
stack_data = record {
  memory_location = stack;
  di_variable = some 6;
  entry_type = some (some 5);
  base_type = some (some 1);
  di_location = none;
  shape_descriptor = none;
  pointer_level = 1;
}
