-- ===== src/Examples/Allocation.antt =====
-- The properties of lib/type/Dimeta.cpp and lib/type/MemoryOps.h at the example program.
use llvm_dimeta.Base.{has_value, length, done, ℕ, ◌<◌, ◌≡◌, refl, true, false, none, some, [], ◌∷◌}
use llvm_dimeta.Metadata.{NodeId}
use llvm_dimeta.Ir.{Call}
use llvm_dimeta.ValuePath.{only_start, value, start_value, extend}
use llvm_dimeta.MemoryOps.{
  flag_word, has_flag, find, alloc_kind, is_alloc, is_new_like, is_cuda_like, is_fortran_like,
  is_mpi_like,
}
use llvm_dimeta.DiUtil.{is_pointer}
use llvm_dimeta.DefUse.{
  add_to_work_s, add_to_work, apply_search_direction, do_traverse, traverse_custom,
}
use llvm_dimeta.Dataflow.{
  match_anchor, malloc_anchor_matcher, match_target, malloc_target_matcher, backtrack_operands,
  malloc_backtrack_search, forward_search, backtrack_from, collect_anchors, type_for_heap_call,
}
use llvm_dimeta.Calls.TypeFor.{
  collect_types, type_for_malloclike, extract_for_callbase, heap_data, type_for_resolved_callbase,
  type_for_call,
}
use llvm_dimeta.Calls.{
  argument_backward, ResolvedCallBaseTypeConfig, auto_dataflow, argument_dataflow,
  CallBaseTypeConfig, is_auto, heap, DimetaData, Finder, resolve_auto_callbase_config,
  resolve_callbase_config, final_ditype,
}
use llvm_dimeta.Calls.Config.{
  config_of_kind, uses_site, resolve_auto_callbase_config_lem, resolve_callbase_config-InRange,
}
use llvm_dimeta.Calls.Final.{FinalType, final_ditype-FinalType}
use llvm_dimeta.Calls.Result.{Resolved, type_for_call-Resolved}
use llvm_dimeta.Examples.{graph, malloc_call, program}

final_ditype-FinalType_example :
    (r : NodeId × ℕ) × (final_ditype graph 4 (some (some 5)) ≡ done (some (some r.0), r.1))
    × FinalType graph 0 5 r
final_ditype-FinalType_example = final_ditype-FinalType graph 4 5 tt

resolve_auto_callbase_config_lem_example :
    resolve_auto_callbase_config true (some malloc_call) ≡ elim malloc_call.callee [
      | none ↦ none
      | some f ↦ elim (alloc_kind f.name) [
        | none ↦ none
        | some kind ↦ some (config_of_kind (uses_site true malloc_call) kind)
      ]
    ]
resolve_auto_callbase_config_lem_example = resolve_auto_callbase_config_lem true malloc_call

-- A call of an unknown function with two arguments
abbrev register_call : Call
register_call = record malloc_call { arguments = 4 ∷ 2 ∷ []; callee = none }

abbrev second_argument : CallBaseTypeConfig
second_argument = record {
  dataflow = argument_dataflow;
  argument_index = 1;
  pointer_level_offset = 3;
}

abbrev second_resolved : ResolvedCallBaseTypeConfig
second_resolved = record {
  source = argument_backward;
  argument_index = 1;
  pointer_level_offset = 3;
}

resolve_callbase_config-InRange_example :
    (second_resolved.source ≡ argument_backward
      → second_resolved.argument_index < length register_call.arguments)
    × (second_resolved.pointer_level_offset ≡ second_argument.pointer_level_offset)
unfolding resolve_callbase_config
resolve_callbase_config-InRange_example =
    resolve_callbase_config-InRange false register_call second_argument second_resolved refl refl

-- The type at the end of a path is that of `p`.
abbrev finder : Finder
finder = record {
  find_type = λ c p. done (some (some 5));
  find_local_variable = λ v. some 6;
  find_location = λ v. none;
  get_array_access_assignment = λ v. none;
}

abbrev automatic : CallBaseTypeConfig
automatic = record { dataflow = auto_dataflow; argument_index = 0; pointer_level_offset = 0 }

abbrev malloc_data : DimetaData
malloc_data = record {
  memory_location = heap;
  di_variable = none;
  entry_type = some (some 5);
  base_type = some (some 1);
  di_location = none;
  shape_descriptor = none;
  pointer_level = 1;
}

type_for_call-Resolved_example :
    (resolved : ResolvedCallBaseTypeConfig) × (resolve_callbase_config false
        (some malloc_call)
        automatic
      ≡ some resolved)
    × Resolved false graph program finder 4 0 resolved malloc_data
    × (is_auto automatic.dataflow ≡ false → has_value malloc_data.entry_type ≡ true)
unfolding type_for_call resolve_callbase_config resolve_auto_callbase_config is_alloc
    is_fortran_like is_cuda_like is_mpi_like is_new_like alloc_kind find has_flag flag_word
    type_for_resolved_callbase heap_data extract_for_callbase type_for_malloclike collect_types
    type_for_heap_call collect_anchors backtrack_from traverse_custom do_traverse
    apply_search_direction add_to_work add_to_work_s value start_value extend malloc_anchor_matcher
    match_anchor only_start forward_search malloc_target_matcher match_target
    malloc_backtrack_search backtrack_operands final_ditype is_pointer
type_for_call-Resolved_example =
    type_for_call-Resolved false graph program finder 9 4 0 malloc_call automatic malloc_data refl
