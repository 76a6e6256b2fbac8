-- ===== src/Examples/Roots.antt =====
-- The properties of lib/type/DIRootType.cpp at a call of `void put(int, Pair*)`.
use llvm_dimeta.Base.{get_elem?, get_or, done, ℕ, suc, ◌≡◌, refl, none, some, [], ◌∷◌}
use llvm_dimeta.Ir.{
  ValueId, Subprogram, no_intrinsic, Callee, Call, alloca, load, ret, other_value, Ir,
}
use llvm_dimeta.ValuePath.{only_start, value, second_last, previous_value, start_value, extend}
use llvm_dimeta.DefUse.{
  add_to_work_s, add_to_work, apply_search_direction, do_traverse, traverse_custom, traverse,
}
use llvm_dimeta.Dataflow.{match_anchor, malloc_anchor_matcher, path_from_instruction}
use llvm_dimeta.Calls.{Finder}
use llvm_dimeta.RootType.{
  find_argument, types_of, type_at_position, type_of_call_argument, first_found, stored_argument,
  declared_type, search_from_alloca, root_of, find_type_root,
}
use llvm_dimeta.RootType.Allocas.{AllocaType, find_type_root-AllocaType}
use llvm_dimeta.RootType.Position.{FirstAt, type_of_call_argument-FirstAt}
use llvm_dimeta.Examples.{graph, path}

abbrev put : Callee
put = record {
  name = "put";
  subprogram = some (record { name = "put"; type_array = some (none ∷ some 0 ∷ some 5 ∷ []) });
}

abbrev call_of_put : Call
call_of_put = record {
  arguments = 7 ∷ 8 ∷ [];
  callee = some put;
  intrinsic = no_intrinsic;
  heapallocsite = none;
}

type_of_call_argument-FirstAt_example :
    (a : ValueId) × (k : ℕ) × (sub : Subprogram) × (previous_value (path (8 ∷ 9 ∷ [])) ≡ some a)
    × FirstAt (7 ∷ 8 ∷ []) a k
    × (put.subprogram ≡ some sub)
    × (get_elem? (types_of sub) (suc k) ≡ some (some 5))
unfolding type_of_call_argument find_argument type_at_position previous_value second_last
type_of_call_argument-FirstAt_example =
    type_of_call_argument-FirstAt (path (8 ∷ 9 ∷ [])) put call_of_put (some 5) refl

-- `Pair* get()` with a temporary 0 that no debug metadata names: 1 loads it, and 2 returns that.
abbrev get : Subprogram
get = record { name = "get"; type_array = some (some 5 ∷ []) }

abbrev returning : Ir
returning = record {
  value = λ v. get_or (alloca ∷ load 0 ∷ ret (some get) ∷ []) v other_value;
  users = λ v. get_or ((1 ∷ []) ∷ (2 ∷ []) ∷ []) v [];
  debug_loc = λ v. none;
}

abbrev no_variables : Finder
no_variables = record {
  find_type = λ c p. done none;
  find_local_variable = λ v. none;
  find_location = λ v. none;
  get_array_access_assignment = λ v. none;
}

find_type_root-AllocaType_example :
    AllocaType graph returning no_variables 9 (λ v c. done none) 1 0 (some 5)
unfolding find_type_root root_of search_from_alloca first_found declared_type stored_argument value
    path_from_instruction traverse traverse_custom do_traverse apply_search_direction add_to_work
    add_to_work_s extend malloc_anchor_matcher match_anchor only_start start_value
find_type_root-AllocaType_example =
    find_type_root-AllocaType graph returning no_variables 9 (λ v c. done none) 1 none
      (path (0 ∷ [])) 0 (some 5) refl refl refl
