-- ===== src/Examples/Tags.antt =====
-- lib/type/TBAA.cpp where the node that is looked for lies two levels down: `Outer` holds `Middle` at 16, and
-- that `Inner` at 8.
use llvm_dimeta.Base.{get_or, done, ◌≡◌, refl, none, some, [], ◌∷◌}
use llvm_dimeta.Tbaa.{
  md_string, md_node, md_constant, TbaaData, tbaa_operand_name, traverse_operands,
  traverse_tbaa_nodes, tbaa_sub_node_matches_name,
}

abbrev nested_tags : TbaaData
nested_tags = record {
  operands = λ n.
      get_or
        ((md_string "Outer" ∷ md_node 1 ∷ md_constant 16 ∷ [])
          ∷ (md_string "Middle" ∷ md_node 2 ∷ md_constant 8 ∷ [])
          ∷ (md_string "Inner" ∷ [])
          ∷ [])
        n [];
  tag = λ v. none;
}

-- `Inner` is found, but its offset in `Middle` alone is counted, not the 24 of `Outer`.
inner_test :
    tbaa_sub_node_matches_name nested_tags 9 "Inner" (some 0)
    ≡ done (record { offset_base = 8; outermost_candidate = some 2 })
unfolding tbaa_sub_node_matches_name traverse_tbaa_nodes traverse_operands tbaa_operand_name
inner_test = refl
