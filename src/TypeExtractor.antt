-- ===== src/TypeExtractor.antt =====
-- lib/type/DITypeExtractor.cpp: what the instructions on a path do to the type that is at its end.
pub mod Load
pub mod Store
pub mod FortranType
pub mod FindType
pub mod Knot
pub mod Fold
pub mod Resets
use llvm_dimeta.Base.{
  ◌==◌, if◌then◌else◌, has_value, any_of, Outcome, ℕ, Bool, true, false, not, ◌||◌, Option, none,
  some,
}
use llvm_dimeta.Metadata.{NodeId, Metadata}
use llvm_dimeta.Ir.{
  ValueId, GepOperator, Value, alloca, load, gep_inst, bit_cast, gep_expr, argument, global_var, Ir,
}
use llvm_dimeta.ValuePath.{ValuePath, value, start_value}
use llvm_dimeta.DiUtil.ByteOffset.{StructMember, resolve_byte_offset_to_member_of}
use llvm_dimeta.Gep.Extract.{is_array_ty}

-- The classes that get_operand_to is asked for
abbrev pub is_alloca : Value → Bool
is_alloca alloca = true
is_alloca _ = false

abbrev pub is_global : Value → Bool
is_global (global_var gv) = true
is_global _ = false

abbrev pub is_argument : Value → Bool
is_argument (argument a) = true
is_argument _ = false

abbrev pub is_load : Value → Bool
is_load (load p) = true
is_load _ = false

abbrev pub as_gep_inst : Value → Option GepOperator
as_gep_inst (gep_inst p) = some p
as_gep_inst _ = none

abbrev pub as_bit_cast : Value → Option ValueId
as_bit_cast (bit_cast p) = some p
as_bit_cast _ = none

-- llvm::GEPOperator: the instruction and the constant expression
abbrev pub as_gep : Value → Option GepOperator
as_gep (gep_inst p) = some p
as_gep (gep_expr p) = some p
as_gep _ = none

-- An index that is no ConstantInt
abbrev pub is_array_gep_with_non_const_indices : GepOperator → Bool
is_array_gep_with_non_const_indices gep = any_of (λ i. not (has_value i)) gep.indices

abbrev pub is_array_gep : Option GepOperator → Bool
is_array_gep none = false
is_array_gep (some gep) =
    is_array_gep_with_non_const_indices gep || is_array_ty gep.source_element_type

-- The path starts at the value.
abbrev pub starts_at : ValuePath → ValueId → Bool
starts_at path v = elim (start_value path) [ none ↦ false | some s ↦ s == v ]

module _ (ir : Ir) where
  -- The pointer operand, or what it is a bit cast of, if that is of the class
  unfoldable pub get_operand_to : (Value → Bool) → ValueId → Option ValueId
  get_operand_to is_class pointer =
      if is_class (ir.value pointer) then some pointer else elim (as_bit_cast (ir.value pointer)) [
        | none ↦ none
        | some v ↦ if is_class (ir.value v) then some v else none
      ]

  -- load_to and store_to
  abbrev pub leads_to : (Value → Bool) → ValueId → Bool
  leads_to is_class pointer = has_value (get_operand_to is_class pointer)

  -- get_operand_to<GetElementPtrInst>
  abbrev pub gep_operand : ValueId → Option GepOperator
  gep_operand pointer = elim (get_operand_to (λ v. has_value (as_gep_inst v)) pointer) [
    | none ↦ none
    | some v ↦ as_gep_inst (ir.value v)
  ]

  abbrev pub load_of_array_gep : ValueId → Bool
  load_of_array_gep pointer = is_array_gep (as_gep_inst (ir.value pointer))

  abbrev pub store_to_array_gep : ValueId → Bool
  store_to_array_gep pointer = elim (gep_operand pointer) [
    | none ↦ false
    | some gep ↦ is_array_gep_with_non_const_indices gep
  ]

-- The member at the byte 0 of a composite type
unfoldable pub first_member : Metadata → ℕ → NodeId → Outcome (Option StructMember)
unfolding resolve_byte_offset_to_member_of
first_member g walk n = resolve_byte_offset_to_member_of g walk n 0
