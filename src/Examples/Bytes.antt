-- ===== src/Examples/Bytes.antt =====
-- The bytes of `struct Line { int color; struct Point { int x; int y; } end; int width; }`, where `end` is
-- aligned to 8 bytes.
use llvm_dimeta.Base.{get_or, done, ℕ, String, ◌≡◌, refl, none, some, List, [], ◌∷◌, arith}
use llvm_dimeta.Metadata.{
  dw_tag_member, dw_tag_structure_type, dw_tag_base_type, dw_tag_variable, NodeId, DerivedType,
  BasicType, DiNode, basic, derived, composite, other, Metadata,
}
use llvm_dimeta.DiUtil.{is_pointer_like, is_array, is_non_static_member, flags_of}
use llvm_dimeta.DiUtil.ByteOffset.{
  visit_member, visit_destructure, resolve_byte_offset_to_member_of,
}
use llvm_dimeta.DiUtil.ByteOffset.Innermost.{simple, nested, Innermost, resolve-Innermost}
use llvm_dimeta.Visitor.{
  enter_hook, visit_hook, leave_hook, pop_var, pop_derived, pop_composite, traverse_leaf,
  traverse_derived_type, traverse_type, traverse_elements, traverse_parts, open_composite,
  traverse_fresh_composite, traverse_composite_type, traverse_recurring_composite_type, dispatch,
  invoke_if_any,
}
use llvm_dimeta.Examples.Nested.{struct_of}

abbrev field : String → ℕ → ℕ → NodeId → DerivedType
field name offset size base = record {
  tag = dw_tag_member;
  name = name;
  flags = 0;
  offset_in_bits = offset;
  size_in_bits = size;
  base_type = some base;
}

abbrev int : BasicType
int = record { tag = dw_tag_base_type; name = "int"; flags = 0; size_in_bits = 32; encoding = 5 }

abbrev fields : List DiNode
fields =
    basic int
    ∷ composite (struct_of dw_tag_structure_type "Point" 64 none (2 ∷ 3 ∷ []))
    ∷ derived (field "x" 0 32 0)
    ∷ derived (field "y" 32 32 0)
    ∷ composite (struct_of dw_tag_structure_type "Line" 192 none (5 ∷ 6 ∷ 7 ∷ []))
    ∷ derived (field "color" 0 32 0)
    ∷ derived (field "end" 64 64 1)
    ∷ derived (field "width" 128 32 0)
    ∷ []

abbrev line_graph : Metadata
line_graph n = get_or fields n (other dw_tag_variable)

-- Byte 13 lies in the second member of `end`.
y_at_13 : Innermost line_graph 13 1 [] 4 0 (record { member = some 3; type_of_member = some 0 })
unfolding is_non_static_member is_array
y_at_13 =
    nested (struct_of dw_tag_structure_type "Line" 192 none (5 ∷ 6 ∷ 7 ∷ []))
      (struct_of dw_tag_structure_type "Point" 64 none (2 ∷ 3 ∷ [])) 6 1 (field "end" 64 64 1) refl
      refl
      (record {
        before = 5 ∷ [];
        behind = 7 ∷ [];
        elements = refl;
        all_before = (
          (
            field "color" 0 32 0,
            record { is_derived = refl; target = 0; target_eq = refl; type = int; is_basic = refl },
            omega arith,
          ),
          tt,
        );
        all_behind = (
          (
            field "width" 128 32 0,
            record { is_derived = refl; target = 0; target_eq = refl; type = int; is_basic = refl },
            omega arith,
            omega arith,
          ),
          tt,
        );
        holder = record {
          is_derived = refl;
          base_eq = refl;
          non_static = refl;
          lower = omega arith;
          upper = omega arith;
          fits = omega arith;
        };
        underived = refl;
        no_array = refl;
      })
      refl refl
      (simple (struct_of dw_tag_structure_type "Point" 64 none (2 ∷ 3 ∷ [])) 3 0 (field "y" 32 32 0)
        int refl refl
        (record {
          before = 2 ∷ [];
          behind = [];
          elements = refl;
          all_before = (
            (
              field "x" 0 32 0,
              record {
                is_derived = refl;
                target = 0;
                target_eq = refl;
                type = int;
                is_basic = refl;
              },
              omega arith,
            ),
            tt,
          );
          all_behind = tt;
          holder = record {
            is_derived = refl;
            base_eq = refl;
            non_static = refl;
            lower = omega arith;
            upper = omega arith;
            fits = omega arith;
          };
          underived = refl;
          no_array = refl;
        })
        refl)

resolve-Innermost_example :
    resolve_byte_offset_to_member_of line_graph 9 4 13
    ≡ done (some (record { member = some 3; type_of_member = some 0 }))
resolve-Innermost_example =
    resolve-Innermost line_graph 13 1 9 4 (record { member = some 3; type_of_member = some 0 })
      (omega arith) y_at_13 (omega arith)

-- Byte 0 lies in `color`, but the visitor goes on to the members of `end` too, which does not hold the byte.
resolve_byte_offset_test :
    resolve_byte_offset_to_member_of line_graph 9 4 0
    ≡ done (some (record { member = some 2; type_of_member = some 0 }))
unfolding resolve_byte_offset_to_member_of invoke_if_any dispatch traverse_leaf
    traverse_derived_type traverse_composite_type traverse_recurring_composite_type
    traverse_fresh_composite traverse_parts traverse_elements traverse_type open_composite
    enter_hook visit_hook leave_hook pop_var pop_derived pop_composite visit_member
    visit_destructure is_pointer_like is_array is_non_static_member flags_of
resolve_byte_offset_test = refl
