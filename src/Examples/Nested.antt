-- ===== src/Examples/Nested.antt =====
-- A getelementptr of `struct Line { int color; struct Point { int x; int y; } end; int weights[4]; }`.
use llvm_dimeta.Base.{get_or, done, ℕ, String, ◌≡◌, refl, false, Option, none, some, List, [], ◌∷◌}
use llvm_dimeta.Metadata.{
  Tag, dw_tag_array_type, dw_tag_structure_type, dw_tag_base_type, dw_tag_variable, NodeId,
  CompositeType, DiNode, basic, composite, other, Metadata,
}
use llvm_dimeta.DiUtil.{is_array, is_inheritance, is_struct_or_class}
use llvm_dimeta.Gep.{select_non_zero_element, find_non_derived_type_unless}
use llvm_dimeta.Gep.Iterate.{iterate_gep_index}
use llvm_dimeta.Gep.Select.{IsPlain}
use llvm_dimeta.Gep.Nested.{Follows, last, in_struct, in_array, iterate_gep_index-Follows}
use llvm_dimeta.Examples.{member}

abbrev pub struct_of : Tag → String → ℕ → Option NodeId → List NodeId → CompositeType
struct_of tag name size element_type elements = record {
  tag = tag;
  name = name;
  identifier = "";
  flags = 0;
  size_in_bits = size;
  base_type = element_type;
  elements = elements;
  associated = false;
  vtable_holder = none;
}

abbrev point_type : CompositeType
point_type = struct_of dw_tag_structure_type "Point" 64 none (2 ∷ 3 ∷ [])

abbrev line_type : CompositeType
line_type = struct_of dw_tag_structure_type "Line" 224 none (6 ∷ 7 ∷ 8 ∷ [])

abbrev weights_type : CompositeType
weights_type = struct_of dw_tag_array_type "" 128 (some 0) []

abbrev line_nodes : List DiNode
line_nodes =
    basic
      (record { tag = dw_tag_base_type; name = "int"; flags = 0; size_in_bits = 32; encoding = 5 })
    ∷ composite point_type
    ∷ member "x" 0 32 0
    ∷ member "y" 32 32 0
    ∷ composite line_type
    ∷ composite weights_type
    ∷ member "color" 0 32 0
    ∷ member "end" 32 64 1
    ∷ member "weights" 96 128 5
    ∷ []

abbrev line_graph : Metadata
line_graph n = get_or line_nodes n (other dw_tag_variable)

line-IsPlain : IsPlain line_graph line_type
unfolding select_non_zero_element is_inheritance
line-IsPlain = record {
  fields = ((_, refl, refl, refl), ((_, refl, refl, refl), ((_, refl, refl, refl), tt)));
  offsets = refl;
}

point-IsPlain : IsPlain line_graph point_type
unfolding select_non_zero_element is_inheritance
point-IsPlain = record {
  fields = ((_, refl, refl, refl), ((_, refl, refl, refl), tt));
  offsets = refl;
}

-- `line.end.y`
end_y : Follows line_graph 4 line_type (1 ∷ 1 ∷ []) (some 0) 3
unfolding find_non_derived_type_unless is_struct_or_class
end_y =
    in_struct point_type
      (record {
        is_plain = line-IsPlain;
        element = refl;
        member = _;
        is_member = refl;
        base = refl;
      })
      refl refl
      (last (record {
        is_plain = point-IsPlain;
        element = refl;
        member = _;
        is_member = refl;
        base = refl;
      }))

iterate_gep_index-Follows_example :
    iterate_gep_index line_graph 4 line_type (1 ∷ 1 ∷ [])
    ≡ done (record { type = some (some 0); member = some 3 })
iterate_gep_index-Follows_example =
    iterate_gep_index-Follows line_graph 4 line_type (1 ∷ 1 ∷ []) (some 0) 3 end_y

-- `line.weights[2]`
weights_element :
    iterate_gep_index line_graph 4 line_type (2 ∷ 2 ∷ [])
    ≡ done (record { type = some (some 0); member = some 8 })
unfolding find_non_derived_type_unless is_struct_or_class is_array
weights_element = iterate_gep_index-Follows line_graph 4 line_type (2 ∷ 2 ∷ []) (some 0) 8 (
    in_array weights_type
      (record {
        is_plain = line-IsPlain;
        element = refl;
        member = _;
        is_member = refl;
        base = refl;
      })
      refl refl refl)
