-- ===== src/Examples/Building.antt =====
-- The properties of lib/type/DimetaParse.cpp at the example program.
use llvm_dimeta.Base.{done, Post, ℕ, ◌≡◌, refl, none, some, List, [], ◌∷◌}
use llvm_dimeta.Visitor.{
  start, enter_hook, visit_hook, leave_hook, pop_var, pop_derived, pop_composite, traverse_other,
  traverse_leaf, traverse_recurring_composite_type, traverse_type, traverse_variable,
  traverse_derived_type, traverse_elements, traverse_parts, open_composite,
  traverse_fresh_composite, traverse_composite_type, dispatch, invoke_if_any, traverse_node,
}
use llvm_dimeta.QualifiedType.{
  compound_type, QualifiedType, qualified_compound, qualified_fundamental,
}
use llvm_dimeta.Parser.{new_visitor}
use llvm_dimeta.Parser.Types.{
  visit_basic_type, make_member, note_derived, visit_derived_type, visit_composite_type, close_top,
  leave_composite_type,
}
use llvm_dimeta.Parser.Callbacks.{visit_event, leave_event, event_hooks}
use llvm_dimeta.DimetaParse.Qualify.{
  dwarf2compound, dwarf2encoding, dwarf2qual, make_qualifiers, product, make_array_sizes,
  vector_size_of, make_qual_type, make_compound, size_of_fundamental, make_fundamental_type,
  encoding_of,
}
use llvm_dimeta.DimetaParse.Stack.{append_member, add_member, emplace_member, finalize}
use llvm_dimeta.DimetaParse.Handler.{emplace_fundamental, handle, handle_all, make_dimetadata}
use llvm_dimeta.DimetaParse.Depth.{HasDepth, parsed-HasDepth}
use llvm_dimeta.DimetaParse.Refines.{BuiltAs, parsed-BuiltAs}
use llvm_dimeta.Examples.{graph}

parsed-HasDepth_example :
    Post
      (λ r. Post (HasDepth 0) (handle_all graph r.0.sub.events))
      (traverse_node (event_hooks graph) graph 9 1 (start new_visitor))
parsed-HasDepth_example = parsed-HasDepth graph 9 1

parsed-BuiltAs_example :
    Post
      (λ r. BuiltAs graph r.0.sub.events)
      (traverse_node (event_hooks graph) graph 9 1 (start new_visitor))
parsed-BuiltAs_example = parsed-BuiltAs graph 9 1

-- The offsets and the sizes of the members of `struct Pair`, and the extent
abbrev layout_of : QualifiedType → List ℕ × List ℕ × ℕ
layout_of (qualified_compound (compound_type h bs ms ss) q) = (h.offsets, h.sizes, h.extent)
layout_of (qualified_fundamental f q) = ([], [], f.extent)

make_dimetadata_test :
    elim (make_dimetadata graph 9 1) [
      | done r ↦ elim r [ some t ↦ some (layout_of t) | none ↦ none ]
      | _ ↦ none
    ]
    ≡ some (0 ∷ 4 ∷ 8 ∷ [], 4 ∷ 4 ∷ 8 ∷ [], 16)
unfolding make_dimetadata traverse_node invoke_if_any dispatch traverse_other traverse_leaf
    traverse_variable traverse_derived_type traverse_composite_type
    traverse_recurring_composite_type traverse_fresh_composite traverse_parts traverse_elements
    traverse_type open_composite enter_hook visit_hook leave_hook pop_var pop_derived pop_composite
    visit_event leave_event visit_basic_type visit_derived_type note_derived make_member
    visit_composite_type leave_composite_type close_top handle_all handle emplace_fundamental
    emplace_member add_member append_member finalize make_qual_type make_qualifiers make_array_sizes
    product vector_size_of make_compound dwarf2compound dwarf2encoding dwarf2qual
    make_fundamental_type size_of_fundamental encoding_of
make_dimetadata_test = refl
