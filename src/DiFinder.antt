-- ===== src/DiFinder.antt =====
-- lib/type/DIFinder.cpp, for LLVM 19 and later: which variable the debug records of a function describe
-- by a value.
pub mod First
use llvm_dimeta.Base.{◌==◌, if◌then◌else◌, Bool, true, false, Option, none, some, List, [], ◌∷◌}
use llvm_dimeta.Metadata.{NodeId}
use llvm_dimeta.Ir.{ValueId, DebugLoc, Value, load, bit_cast, Ir}
use llvm_dimeta.Dataflow.{as_store}
use llvm_dimeta.Calls.{LocalAccessData}

-- llvm::DbgVariableRecord: the operand 0 of its location, whether its kind is that of an assignment, the
-- instructions of that, its variable, whether its expression is a fragment, and its location, which
-- a record always has.
pub record DbgVariable : Type 0 where
  pub location : Option ValueId
  pub is_assign : Bool
  pub assignments : List ValueId
  pub variable : NodeId
  pub is_fragment : Bool
  pub debug_loc : DebugLoc

-- What the code reads of a function: the instructions of the function of an instruction, in order, and
-- the records of an instruction.
pub record DebugRecords : Type 0 where
  pub instructions : ValueId → List ValueId
  pub dbg_records : ValueId → List DbgVariable

abbrev pub equals : Option ValueId → ValueId → Bool
equals none v = false
equals (some u) v = u == v

module _ (ir : Ir) (records : DebugRecords) where
  -- The pointer of the first store among the instructions of an assignment
  unfoldable pub get_alloca_from_dbg_assign : List ValueId → Option ValueId
  get_alloca_from_dbg_assign [] = none
  get_alloca_from_dbg_assign (a ∷ assigns) =
      let rest = get_alloca_from_dbg_assign assigns in
      elim (as_store (ir.value a)) [ some pointer ↦ some pointer | none ↦ rest ]

  unfoldable pub get_alloca_for : DbgVariable → Option ValueId
  unfolding get_alloca_from_dbg_assign
  get_alloca_for dbg_var =
      if dbg_var.is_assign then get_alloca_from_dbg_assign dbg_var.assignments else dbg_var.location

  -- The inner loop and the outer loop of find_intrinsic
  unfoldable pub find_record : ValueId → List DbgVariable → Option DbgVariable
  unfolding get_alloca_for
  find_record root [] = none
  find_record root (r ∷ rs) = if equals (get_alloca_for r) root then some r else find_record root rs

  unfoldable pub find_in_instructions : ValueId → List ValueId → Option DbgVariable
  unfolding find_record
  find_in_instructions root [] = none
  find_in_instructions root (i ∷ is) =
      let rest = find_in_instructions root is in
      elim (find_record root (records.dbg_records i)) [ some r ↦ some r | none ↦ rest ]

  unfoldable pub find_intrinsic : ValueId → Option DbgVariable
  unfolding find_in_instructions
  find_intrinsic root = find_in_instructions root (records.instructions root)

  unfoldable pub find_di_var : ValueId → Option NodeId
  unfolding find_intrinsic
  find_di_var v = elim (find_intrinsic v) [ none ↦ none | some r ↦ some r.variable ]

  abbrev pub is_cast_or_load : Value → Bool
  is_cast_or_load (bit_cast p) = true
  is_cast_or_load (load p) = true
  is_cast_or_load _ = false

  -- The loop over the users: the first bit cast or load that a record describes
  unfoldable pub find_in_users : List ValueId → Option NodeId
  unfolding find_di_var
  find_in_users [] = none
  find_in_users (u ∷ us) =
      let rest = find_in_users us in
      if is_cast_or_load (ir.value u)
      then elim (find_di_var u) [ some n ↦ some n | none ↦ rest ]
      else rest

  unfoldable pub find_local_variable : ValueId → Option NodeId
  unfolding find_di_var find_in_users
  find_local_variable v = elim (find_di_var v) [
    | some n ↦ some n
    | none ↦ find_in_users (ir.users v)
  ]

  unfoldable pub find_location : ValueId → Option DebugLoc
  unfolding find_intrinsic
  find_location v = elim (ir.debug_loc v) [
    | some loc ↦ some loc
    | none ↦ elim (find_intrinsic v) [ none ↦ none | some r ↦ some r.debug_loc ]
  ]

  unfoldable pub get_array_access_assignment : ValueId → Option LocalAccessData
  unfolding find_intrinsic
  get_array_access_assignment c = elim (find_intrinsic c) [
    | none ↦ none
    | some r ↦ some (record { var = r.variable; array_access = r.is_fragment })
  ]
