-- ===== src/Examples/Search.antt =====
-- The properties of the dataflow searches at the example program.

use llvm_dimeta.Base.{
  Option-cases, length, any_of, All, zero, suc, ◌≤◌, ◌<◌, ◌≡◌, refl, subst, inl, inr, true, none,
  some, some-injective, List, [], ◌∷◌, arith,
}
use llvm_dimeta.Ir.{ValueId}
use llvm_dimeta.ValuePath.{ValuePath, only_start, value, start_value, extend}
use llvm_dimeta.DefUse.{
  add_to_work_s, add_to_work, apply_search_direction, do_traverse, traverse_custom, users_of,
  traverse,
}
use llvm_dimeta.DefUse.Covered.{Reach, here, onward, is_at}
use llvm_dimeta.DefUse.Complete.{traverse_custom-finds}
use llvm_dimeta.DefUse.Termination.{traverse_custom_returns}
use llvm_dimeta.Dataflow.{
  is_target, match_anchor, malloc_anchor_matcher, match_target, malloc_target_matcher,
  backtrack_operands, malloc_backtrack_search, forward_search, backtrack_from, collect_anchors,
  type_for_heap_call, path_from_instruction, path_from_value,
}
use llvm_dimeta.Dataflow.Anchors.{
  is_anchor, EndsIn, Forward, Backward, path_from_instruction-EndsIn, path_from_value-EndsIn,
}
use llvm_dimeta.Dataflow.HeapCall.{HeapPath, type_for_heap_call-HeapPath}
use llvm_dimeta.Dataflow.Complete.{
  operands, halts, IsFound, target_matcher-Explores, path_from_value-finds,
}
use llvm_dimeta.Dataflow.Termination.{IsFiniteIr, type_for_heap_call_returns}
use llvm_dimeta.Examples.{program, path}

-- The alloca is reached by going back from the store.
alloca-Reach : Reach (operands program) (halts program) 1 2
unfolding backtrack_operands
alloca-Reach = onward 2 (here refl) refl refl

path_from_value-finds_example : any_of (is_at 2) (path (1 ∷ 2 ∷ []) ∷ []) ≡ true
unfolding path_from_value backtrack_from traverse_custom do_traverse apply_search_direction
    add_to_work add_to_work_s value extend malloc_target_matcher match_target
    malloc_backtrack_search backtrack_operands
path_from_value-finds_example =
    path_from_value-finds program 9 1 (path (1 ∷ 2 ∷ []) ∷ []) refl 2 alloca-Reach refl

traverse_custom-finds_example : any_of (is_at 2) (path (1 ∷ 2 ∷ []) ∷ []) ≡ true
unfolding path_from_value backtrack_from traverse_custom do_traverse apply_search_direction
    add_to_work add_to_work_s value extend malloc_target_matcher match_target
    malloc_backtrack_search backtrack_operands
traverse_custom-finds_example =
    traverse_custom-finds (malloc_target_matcher program) (λ p. true)
      (malloc_backtrack_search program) (operands program) (halts program) (IsFound program)
      (target_matcher-Explores program) 1 9 [] (path (1 ∷ 2 ∷ []) ∷ []) refl 2 alloca-Reach refl

type_for_heap_call-HeapPath_example : All (HeapPath program 0) (path (1 ∷ 2 ∷ []) ∷ [])
unfolding type_for_heap_call collect_anchors backtrack_from traverse_custom do_traverse
    apply_search_direction add_to_work add_to_work_s value start_value extend malloc_anchor_matcher
    match_anchor only_start forward_search malloc_target_matcher match_target
    malloc_backtrack_search backtrack_operands
type_for_heap_call-HeapPath_example =
    type_for_heap_call-HeapPath program 0 9 (path (1 ∷ 2 ∷ []) ∷ []) refl

path_from_instruction-EndsIn_example :
    All
      (EndsIn program (Forward program (users_of program) 0) (is_anchor program))
      (path (0 ∷ 1 ∷ []) ∷ [])
unfolding path_from_instruction traverse traverse_custom do_traverse apply_search_direction
    add_to_work add_to_work_s value start_value extend malloc_anchor_matcher match_anchor only_start
path_from_instruction-EndsIn_example =
    path_from_instruction-EndsIn program 9 0 (path (0 ∷ 1 ∷ []) ∷ []) refl

path_from_value-EndsIn_example :
    All (EndsIn program (Backward program 1) (λ q. is_target)) (path (1 ∷ 2 ∷ []) ∷ [])
unfolding path_from_value backtrack_from traverse_custom do_traverse apply_search_direction
    add_to_work add_to_work_s value extend malloc_target_matcher match_target
    malloc_backtrack_search backtrack_operands
path_from_value-EndsIn_example = path_from_value-EndsIn program 9 1 (path (1 ∷ 2 ∷ []) ∷ []) refl

users_small : (v : ValueId) → All (λ u. u < 3) (program.users v) × (length (program.users v) ≤ 1)
users_small zero = ((omega arith, tt), omega arith)
users_small (suc zero) = (tt, omega arith)
users_small (suc (suc zero)) = ((omega arith, tt), omega arith)
users_small (suc (suc (suc v))) = (tt, omega arith)

operands_small :
    (v : ValueId) (vs : List ValueId)
    → backtrack_operands program (program.value v) ≡ some vs
    → All (λ u. u < 3) vs × (length vs ≤ 1)
unfolding backtrack_operands
operands_small zero vs e =
    subst (λ us. All (λ u. u < 3) us × (length us ≤ 1)) (some-injective [] vs e) (tt, omega arith)
operands_small (suc zero) vs e =
    subst (λ us. All (λ u. u < 3) us × (length us ≤ 1)) (some-injective (2 ∷ []) vs e)
      ((omega arith, tt), omega arith)
operands_small (suc (suc zero)) vs e = cc
operands_small (suc (suc (suc v))) vs e = cc

program-IsFiniteIr : IsFiniteIr program 3 1
program-IsFiniteIr = record { users = users_small; operands = operands_small }

type_for_heap_call_returns_example :
    (paths : List ValuePath) × (type_for_heap_call program 27 0 ≡ some paths)
type_for_heap_call_returns_example =
    type_for_heap_call_returns program 3 1 program-IsFiniteIr 27 0 (omega arith) (omega arith)

search_small :
    (p : ValuePath) (vs : List ValueId)
    → users_of program p ≡ some vs
    → All (λ v. v < 3) vs × (length vs ≤ 1)
search_small p vs e = elim (Option-cases (value p)) [
  | inl no_value ↦ let n : none ≡ some vs = rw (no_value, users_of) at e in cc
  | inr (v, ends) ↦
      subst (λ us. All (λ u. u < 3) us × (length us ≤ 1))
        (some-injective _ vs (rw (ends, users_of) at e)) (users_small v)
]

traverse_custom_returns_example :
    (r : List ValuePath) × (traverse_custom
        (malloc_anchor_matcher program)
        (λ p. true)
        (users_of program)
        27
        2
        []
      ≡ some r)
traverse_custom_returns_example =
    traverse_custom_returns (malloc_anchor_matcher program) (λ p. true) (users_of program) 3 1
      search_small 27 2 [] (omega arith) (omega arith)
