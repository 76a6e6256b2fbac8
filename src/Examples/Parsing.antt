-- ===== src/Examples/Parsing.antt =====
-- The properties of the parser and of the located types at the example program.

use llvm_dimeta.Base.{
  length, Outcome, done, Post, ℕ, ◌≡◌, refl, false, Option, some, List, [], ◌∷◌, map,
}
use llvm_dimeta.Metadata.{Ptr}
use llvm_dimeta.Visitor.{
  start, enter_hook, visit_hook, leave_hook, pop_var, pop_derived, pop_composite, traverse_other,
  traverse_leaf, traverse_recurring_composite_type, traverse_type, traverse_variable,
  traverse_derived_type, traverse_elements, traverse_parts, open_composite,
  traverse_fresh_composite, traverse_composite_type, dispatch, invoke_if_any, traverse_node,
}
use llvm_dimeta.Dataflow.Fortran.{IndexDim}
use llvm_dimeta.Parser.Types.{
  visit_basic_type, make_member, note_derived, visit_derived_type, visit_composite_type, close_top,
  leave_composite_type,
}
use llvm_dimeta.Parser.Callbacks.{visit_event, leave_event, event_hooks, visit_node}
use llvm_dimeta.Parser.{new_visitor}
use llvm_dimeta.Parser.Nesting.{Nested, parser-Nested}
use llvm_dimeta.QualifiedType.{
  pointer, QualifiedType, qualified_fundamental, LocatedType, qualification,
}
use llvm_dimeta.SourceLoc.{
  make_source_loc, location_for, add_pointer, reset_pointer_qualifier, shape_less, insert,
  stable_sort, add_shape, reset_shape_qualifier, reset_qualifiers, parsed_type, located_type_for,
}
use llvm_dimeta.SourceLoc.Shape.{IsSorted, with_key, reset_shape_qualifier_lem}
use llvm_dimeta.SourceLoc.Located.{Located, located_type_for-Located}
use llvm_dimeta.Examples.{graph, stack_data}

parser-Nested_example :
    Post
      (λ r. Nested r.0.sub.events [] × (r.0.sub.stack ≡ []) × (r.0.visited ≡ []))
      (traverse_node (event_hooks graph) graph 31 1 (start new_visitor))
parser-Nested_example = parser-Nested graph 31 1

-- The parser runs through: it raises six events for `struct Pair`, the pointer's struct recurring.
parser_test : elim (visit_node graph 31 1) [ done es ↦ length es | _ ↦ 0 ] ≡ 6
unfolding visit_node traverse_node invoke_if_any dispatch traverse_other traverse_leaf
    traverse_variable traverse_derived_type traverse_composite_type
    traverse_recurring_composite_type traverse_fresh_composite traverse_parts traverse_elements
    traverse_type open_composite enter_hook visit_hook leave_hook pop_var pop_derived pop_composite
    visit_event leave_event visit_basic_type visit_derived_type note_derived make_member
    visit_composite_type leave_composite_type close_top
parser_test = refl

abbrev int_pointer : QualifiedType
int_pointer =
    qualified_fundamental (record { name = "int"; extent = 4; encoding = 20 })
      (record {
        array_size = [];
        qual = pointer ∷ [];
        typedef_name = "";
        vector_size = 0;
        is_vector = false;
        is_forward_decl = false;
        is_recurring = false;
      })

-- The dimensions 1 and 0 of an array, 1 first
abbrev shapes : List IndexDim
shapes = record { position = 1; dim = 20 } ∷ record { position = 0; dim = 10 } ∷ []

reset_shape_qualifier_lem_example :
    (ordered : List IndexDim) × IsSorted ordered
    × ((k : ℕ) → with_key k ordered ≡ with_key k shapes)
    × (qualification (reset_shape_qualifier shapes int_pointer)
        ≡ record (qualification int_pointer) { array_size = map (λ d. d.dim) ordered })
reset_shape_qualifier_lem_example = reset_shape_qualifier_lem shapes int_pointer

sort_test : (qualification (reset_shape_qualifier shapes int_pointer)).array_size ≡ 10 ∷ 20 ∷ []
unfolding reset_shape_qualifier add_shape stable_sort insert shape_less
sort_test = refl

abbrev make_int_pointer : Ptr → Outcome (Option QualifiedType)
make_int_pointer t = done (some int_pointer)

abbrev located_p : LocatedType
located_p = record {
  type = int_pointer;
  location = record { file = "pair.c"; function = "main"; line = 7 };
}

located_type_for-Located_example : Located graph make_int_pointer stack_data located_p
unfolding located_type_for location_for make_source_loc parsed_type reset_qualifiers
    reset_pointer_qualifier add_pointer
located_type_for-Located_example =
    located_type_for-Located graph make_int_pointer stack_data located_p refl
