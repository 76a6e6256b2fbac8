-- ===== src/Examples/Extracting.antt =====
-- lib/type/DIFinder.cpp, TBAA.cpp and DITypeExtractor.cpp at the example program, and type_for as a whole.

use llvm_dimeta.Calls.TypeFor.{type_for_call}
use llvm_dimeta.TypeExtractor.FindType.{reset_ditype, reset_path, type_along, find_type_from}
use llvm_dimeta.TypeExtractor.FortranType.{final_type}
use llvm_dimeta.TypeExtractor.Store.{store_to_first, reset_store_related_basic}
use llvm_dimeta.RootType.{
  type_of_variable, stored_argument, declared_type, search_from_alloca, root_of_call, root_of,
  find_type_root,
}
use llvm_dimeta.DiUtil.ByteOffset.{
  visit_member, visit_destructure, resolve_byte_offset_to_member_of,
}
use llvm_dimeta.Visitor.{
  enter_hook, visit_hook, leave_hook, pop_var, pop_derived, pop_composite, traverse_other,
  traverse_leaf, traverse_recurring_composite_type, traverse_type, traverse_variable,
  traverse_derived_type, traverse_elements, traverse_parts, open_composite,
  traverse_fresh_composite, traverse_composite_type, dispatch, invoke_if_any,
}
use llvm_dimeta.ValuePath.{only_start, value, second_last, previous_value, start_value, at}
use llvm_dimeta.Base.{
  ◌==◌, if◌then◌else◌, length, get_or, All, Outcome, done, Post, ℕ, ◌-◌, ◌/◌, ◌≡◌, refl, ◌↔◌, true,
  false, Option, none, some, [], ◌∷◌, arith,
}
use llvm_dimeta.Metadata.{Ptr}
use llvm_dimeta.DiUtil.{
  is_pointer_like, is_non_static_member, get_num_composite_members, get_composite_members,
}
use llvm_dimeta.Calls.{auto_dataflow, CallBaseTypeConfig, DimetaData}
use llvm_dimeta.DiFinder.{
  DebugRecords, get_alloca_for, find_record, find_in_instructions, find_intrinsic, find_di_var,
  find_local_variable, get_array_access_assignment,
}
use llvm_dimeta.DiFinder.First.{LocalVariable, find_local_variable-LocalVariable}
use llvm_dimeta.Tbaa.{
  md_string, md_node, md_constant, TbaaData, TbaaHandle, check_if_pointer_type, handle_of,
  create_handle, name_of, access_is_ptr,
}
use llvm_dimeta.Tbaa.Resolve.{
  composite_fits_tbaa, find_composite, match_names, select_matched, select_member, resolve_below,
  tbaa_resolver, resolve_tbaa,
}
use llvm_dimeta.Tbaa.Fits.{constants, byte_offsets, IsPrefix, composite_fits_tbaa-IsPrefix}
use llvm_dimeta.Pass.{
  function_line, rule, heap_type, stack_type, Function, line_of, lines_for, lines_of, run_on_func,
  run,
}
use llvm_dimeta.Pass.Shown.{IsTold, run-IsTold}
use llvm_dimeta.TypeExtractor.Knot.{Program, default_config, find_type, type_for}
use llvm_dimeta.TypeExtractor.Fold.{ResetFrom, root_for, find_type-ResetFrom}
use llvm_dimeta.Examples.{pair_type, graph, malloc_call, program, path}

-- The debug records say that `p` lives in the alloca; the store has an access tag with the offset 8, that
-- of `next`.
abbrev records : DebugRecords
records = record {
  instructions = λ v. 2 ∷ 0 ∷ 1 ∷ [];
  dbg_records = λ v.
      get_or
        ([]
          ∷ []
          ∷ (record {
            location = some 2;
            is_assign = false;
            assignments = [];
            variable = 6;
            is_fragment = false;
            debug_loc = record {
              file = "pair.c";
              line = 7;
              subprogram = none;
              function = none;
              is_inlined = false;
            };
          }
              ∷ [])
          ∷ [])
        v [];
}

abbrev tbaa : TbaaData
tbaa = record {
  operands = λ n.
      get_or
        ((md_node 1 ∷ md_node 3 ∷ md_constant 8 ∷ [])
          ∷ (md_string "Pair"
              ∷ md_node 2
              ∷ md_constant 0
              ∷ md_node 2
              ∷ md_constant 4
              ∷ md_node 3
              ∷ md_constant 8
              ∷ [])
          ∷ (md_string "int" ∷ [])
          ∷ (md_string "any pointer" ∷ [])
          ∷ [])
        n [];
  tag = λ v. if v == 1 then some 0 else none;
}

abbrev whole : Program
whole = record {
  metadata = graph;
  ir = program;
  records = records;
  tbaa = tbaa;
  strip_pointer_casts = λ v. v;
  use_tbaa = false;
  use_heapallocsite = false;
}

abbrev automatic : CallBaseTypeConfig
automatic = record { dataflow = auto_dataflow; argument_index = 0; pointer_level_offset = 0 }

find_local_variable-LocalVariable_example :
    LocalVariable program records 2 (find_local_variable program records 2)
find_local_variable-LocalVariable_example = find_local_variable-LocalVariable program records 2

find_local_variable_test : find_local_variable program records 2 ≡ some 6
unfolding find_local_variable find_di_var find_intrinsic find_in_instructions find_record
    get_alloca_for
find_local_variable_test = refl

resolve_tbaa_test : resolve_tbaa graph tbaa 9 9 (some 1) 1 ≡ done (some (some 5))
unfolding resolve_tbaa access_is_ptr check_if_pointer_type name_of tbaa_resolver find_composite
    resolve_below select_member match_names select_matched resolve_byte_offset_to_member_of
    invoke_if_any dispatch traverse_leaf leave_hook visit_hook enter_hook pop_var
    traverse_composite_type traverse_fresh_composite open_composite traverse_parts traverse_type
    traverse_elements pop_composite traverse_recurring_composite_type traverse_other
    traverse_derived_type pop_derived traverse_variable visit_destructure visit_member create_handle
    handle_of is_non_static_member is_pointer_like
resolve_tbaa_test = refl

abbrev tag_of_store : TbaaHandle
tag_of_store = record { base_ty = some 1; access_ty = some 3; offset_value = 8 }

composite_fits_tbaa-IsPrefix_example :
    (composite_fits_tbaa graph tbaa pair_type tag_of_store ≡ done true)
    ↔ (get_num_composite_members graph pair_type ≡ (length (tbaa.operands 1) - 1) / 2)
      × IsPrefix
          (constants (tbaa.operands 1))
          (byte_offsets (get_composite_members graph pair_type))
composite_fits_tbaa-IsPrefix_example =
    composite_fits_tbaa-IsPrefix graph tbaa pair_type tag_of_store 1 refl (omega arith)

find_type-ResetFrom_example :
    (root : Ptr) × (root_for whole 9 9 9 3 (some 0) (path (1 ∷ 2 ∷ [])) ≡ done (some root))
    × ResetFrom false tbaa graph program 9 9 (path (1 ∷ 2 ∷ [])) root (some 5)
unfolding find_type find_type_from type_along reset_path reset_ditype reset_store_related_basic
    final_type find_type_root root_of root_of_call declared_type type_of_variable
    find_local_variable find_di_var find_intrinsic find_in_instructions find_record get_alloca_for
    store_to_first value at previous_value second_last search_from_alloca stored_argument
find_type-ResetFrom_example =
    find_type-ResetFrom whole 9 9 9 3 (some 0) (path (1 ∷ 2 ∷ [])) (some 5) refl refl

-- The entry type, the base type and the pointer level of a result
abbrev types_and_level : Outcome (Option DimetaData) → Option (Option Ptr × Option Ptr × ℕ)
types_and_level (done (some d)) = some (d.entry_type, d.base_type, d.pointer_level)
types_and_level _ = none

-- The type of the call of malloc, by the whole library
type_for_test :
    types_and_level (type_for whole 9 9 9 4 0 malloc_call default_config)
    ≡ some (some (some 5), some (some 1), 1)
unfolding type_for type_for_call find_type find_type_from type_along reset_path reset_ditype
    reset_store_related_basic final_type find_type_root root_of root_of_call declared_type
    type_of_variable find_local_variable find_di_var find_intrinsic find_in_instructions find_record
    get_alloca_for store_to_first value at previous_value second_last search_from_alloca
    stored_argument get_array_access_assignment only_start start_value
type_for_test = refl

abbrev main_function : Function
main_function = record { name = "main"; is_declaration = false; instructions = 2 ∷ 0 ∷ 1 ∷ [] }

run-IsTold_example : Post (All (IsTold whole 9 9 9 4)) (run whole 9 9 9 4 (main_function ∷ []))
run-IsTold_example = run-IsTold whole 9 9 9 4 (main_function ∷ [])

run_test :
    run whole 9 9 9 4 (main_function ∷ [])
    ≡ done (function_line "main" ∷ rule ∷ stack_type 1 ∷ heap_type 1 ∷ rule ∷ [])
unfolding run run_on_func lines_of lines_for line_of type_for type_for_call find_type find_type_from
    type_along reset_path reset_ditype reset_store_related_basic final_type find_type_root root_of
    root_of_call declared_type type_of_variable find_local_variable find_di_var find_intrinsic
    find_in_instructions find_record get_alloca_for store_to_first value at previous_value
    second_last search_from_alloca stored_argument get_array_access_assignment only_start
    start_value
run_test = refl
