-- ===== src/Dataflow.antt =====
-- lib/type/DataflowAnalysis.cpp: the searches from an allocation forwards to its anchors, such as the
-- store of the pointer, and from an anchor backwards to the variable that tells the type.
pub mod Fortran
pub mod Anchors
pub mod Flang
pub mod Shape
pub mod Number
pub mod Complete
pub mod Termination
pub mod HeapCall
use llvm_dimeta.Base.{
  ◌==◌, if◌then◌else◌, any_of, ℕ, Bool, true, false, not, Option, none, some, List, [], ◌∷◌, ◌++◌,
}
use llvm_dimeta.Ir.{
  ValueId, Intrinsic, no_intrinsic, memcpy, other_mem_intrinsic, other_intrinsic, Value, alloca,
  store, load, gep_inst, bit_cast, phi, call, sext, ret, gep_expr, bit_cast_expr, argument,
  global_var, Ir, is_instruction,
}
use llvm_dimeta.ValuePath.{ValuePath, only_start, value, start_value}
use llvm_dimeta.DefUse.{MatchResult, continue, cancel, skip, traverse_custom, traverse}

-- The class IntrinsicInst holds calls, and no callbr or invoke.
abbrev pub intrinsic_of : Value → Intrinsic
intrinsic_of (call true c) = c.intrinsic
intrinsic_of _ = no_intrinsic

abbrev pub is_intrinsic : Value → Bool
is_intrinsic v = elim (intrinsic_of v) [
  | no_intrinsic ↦ false
  | memcpy ↦ true
  | other_mem_intrinsic ↦ true
  | other_intrinsic ↦ true
]

-- MemCpyInst::classof, MemIntrinsic::classof
abbrev pub is_memcpy : Value → Bool
is_memcpy v = elim (intrinsic_of v) [
  | no_intrinsic ↦ false
  | memcpy ↦ true
  | other_mem_intrinsic ↦ false
  | other_intrinsic ↦ false
]

abbrev pub is_mem_intrinsic : Value → Bool
is_mem_intrinsic v = elim (intrinsic_of v) [
  | no_intrinsic ↦ false
  | memcpy ↦ true
  | other_mem_intrinsic ↦ true
  | other_intrinsic ↦ false
]

-- The pointer operand of a store
abbrev pub as_store : Value → Option ValueId
as_store (store s) = some s.pointer
as_store _ = none

-- Where a target of the backward search is recorded: allocas, arguments, global variables and calls
abbrev pub is_target : Value → Bool
is_target alloca = true
is_target (argument a) = true
is_target (global_var gv) = true
is_target (call b c) = not (is_intrinsic (call b c))
is_target _ = false

module _ (ir : Ir) where
  -- MallocAnchorMatcher::operator(), after the test that the path is not empty
  unfoldable pub match_anchor : ValuePath → Value → List ValuePath → List ValuePath × MatchResult
  match_anchor p (ret s) anchors = (anchors ++ p ∷ [], cancel)
  match_anchor p (store s) anchors =
      if elim (start_value p) [ none ↦ false | some v ↦ s.pointer == v ]
      then (anchors, skip)
      else if any_of (λ u. is_mem_intrinsic (ir.value u)) (ir.users s.pointer)
      then (anchors, continue)
      else (anchors ++ p ∷ [], skip)
  match_anchor p (gep_inst op) anchors = (anchors, skip)
  match_anchor p (call b c) anchors =
      if is_intrinsic (call b c)
      then (if is_mem_intrinsic (call b c) then anchors ++ p ∷ [] else anchors, skip)
      else if only_start p
      then (anchors, continue)
      else (anchors ++ p ∷ [], continue)
  match_anchor p v anchors = (anchors, if is_instruction v then continue else skip)

  unfoldable pub malloc_anchor_matcher : ValuePath → List ValuePath → List ValuePath × MatchResult
  unfolding match_anchor
  malloc_anchor_matcher p anchors = elim (value p) [
    | none ↦ (anchors, skip)
    | some v ↦ match_anchor p (ir.value v) anchors
  ]

  -- MallocTargetMatcher::operator()
  unfoldable pub match_target : ValuePath → Value → List ValuePath → List ValuePath × MatchResult
  match_target p v types_path =
      if is_intrinsic v
      then (types_path, if is_memcpy v then continue else skip)
      else if is_target v
      then (types_path ++ p ∷ [], skip)
      else (types_path, continue)

  unfoldable pub malloc_target_matcher : ValuePath → List ValuePath → List ValuePath × MatchResult
  unfolding match_target
  malloc_target_matcher p types_path = elim (value p) [
    | none ↦ (types_path, skip)
    | some v ↦ match_target p (ir.value v) types_path
  ]

  -- MallocBacktrackSearch::operator() at a value. Operand 0 of a call is its first argument.
  unfoldable pub backtrack_operands : Value → Option (List ValueId)
  backtrack_operands (gep_expr op) = some (op.pointer ∷ [])
  backtrack_operands (bit_cast_expr v) = some (v ∷ [])
  backtrack_operands (store s) = some (s.pointer ∷ [])
  backtrack_operands (load v) = some (v ∷ [])
  backtrack_operands (gep_inst op) = some (op.pointer ∷ [])
  backtrack_operands (bit_cast v) = some (v ∷ [])
  backtrack_operands (phi vs) = some vs
  backtrack_operands (call true c) =
      some (if is_memcpy (call true c) then elim c.arguments [ [] ↦ [] | v ∷ vs ↦ v ∷ [] ] else [])
  backtrack_operands (sext v) = some (v ∷ [])
  backtrack_operands _ = none

  unfoldable pub malloc_backtrack_search : ValuePath → Option (List ValueId)
  unfolding backtrack_operands
  malloc_backtrack_search p = elim (value p) [
    | none ↦ none
    | some v ↦ backtrack_operands (ir.value v)
  ]

  -- The forward direction of type_for_heap_call: a store goes on at the users of its pointer operand.
  unfoldable pub forward_search : ValuePath → Option (List ValueId)
  forward_search p = elim (value p) [
    | none ↦ none
    | some v ↦ elim (as_store (ir.value v)) [
      | some pointer ↦ some (ir.users pointer)
      | none ↦ some (ir.users v)
    ]
  ]

  unfoldable pub backtrack_from : ℕ → ValueId → List ValuePath → Option (List ValuePath)
  unfolding traverse_custom malloc_target_matcher malloc_backtrack_search
  backtrack_from fuel v types_path =
      traverse_custom malloc_target_matcher (λ p. true) malloc_backtrack_search fuel v types_path

  -- Whether the loop of type_for_heap_call searches backwards from an anchor
  abbrev pub is_backtracked : Value → Bool
  is_backtracked v = elim (as_store v) [ some pointer ↦ true | none ↦ is_mem_intrinsic v ]

  abbrev pub is_store_to : ValueId → Value → Bool
  is_store_to c v = elim (as_store v) [ some pointer ↦ pointer == c | none ↦ false ]

  -- The loop of type_for_heap_call over the anchors. The target matcher, and with it the list
  -- `types_path`, is shared by the searches of all the anchors.
  unfoldable pub collect_anchors :
      ℕ → ValueId → List ValuePath → List ValuePath → List ValuePath → Option (List ValuePath)
  unfolding backtrack_from
  collect_anchors fuel c [] types_path paths = some paths
  collect_anchors fuel c (a ∷ rest_anchors) types_path paths =
      let rest = collect_anchors fuel c rest_anchors in
      elim (value a) [
        | none ↦ rest types_path (paths ++ a ∷ [])
        | some v ↦
            if is_store_to c (ir.value v)
            then rest types_path paths
            else if is_backtracked (ir.value v)
            then elim (backtrack_from fuel v types_path) [
              | none ↦ none
              | some found ↦ rest found (paths ++ found)
            ]
            else rest types_path (paths ++ a ∷ [])
      ]

  unfoldable pub type_for_heap_call : ℕ → ValueId → Option (List ValuePath)
  unfolding traverse_custom malloc_anchor_matcher forward_search collect_anchors
  type_for_heap_call fuel c =
      elim (traverse_custom malloc_anchor_matcher (λ p. true) forward_search fuel c []) [
        | none ↦ none
        | some anchors ↦ collect_anchors fuel c anchors [] []
      ]

  -- path_from_alloca and path_from_instruction
  unfoldable pub path_from_instruction : ℕ → ValueId → Option (List ValuePath)
  unfolding traverse malloc_anchor_matcher
  path_from_instruction fuel v = traverse ir malloc_anchor_matcher (λ p. true) fuel v []

  unfoldable pub path_from_value : ℕ → ValueId → Option (List ValuePath)
  unfolding backtrack_from
  path_from_value fuel v = backtrack_from fuel v []
