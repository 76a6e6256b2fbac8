-- ===== src/Ir.antt =====
-- The part of LLVM's intermediate representation that lib/type reads. A value is named by a number,
-- which stands for the pointer to it, and `users` is its use list.
use llvm_dimeta.Base.{ℕ, String, Bool, true, false, Option, List}
use llvm_dimeta.Metadata.{NodeId, Ptr}

abbrev pub ValueId : Type 0
ValueId = ℕ

-- llvm::Type: pointers, integers by their width, arrays by their length, structs by their elements
mutual
  pub data IrType : Type 0 where
    pointer_ty : IrType
    integer_ty : ℕ → IrType
    array_ty : ℕ → IrType → IrType
    struct_ty : IrTypes → IrType
    other_ty : IrType

  pub data IrTypes : Type 0 where
    no_types : IrTypes
    and_type : IrType → IrTypes → IrTypes

-- DISubprogram: its name, and the type array of its type: the result's, then the parameters'.
pub record Subprogram : Type 0 where
  pub name : String
  pub type_array : Option (List Ptr)

-- DILocation: `subprogram` is its scope, where that is a DISubprogram and no lexical block;
-- `function` is the subprogram around the scope.
pub record DebugLoc : Type 0 where
  pub file : String
  pub line : ℕ
  pub subprogram : Option Subprogram
  pub function : Option Subprogram
  pub is_inlined : Bool

-- An index is the value of a ConstantInt, sign-extended to the 64-bit pattern, or none.
pub record GepOperator : Type 0 where
  pub pointer : ValueId
  pub source_element_type : IrType
  pub indices : List (Option ℕ)

pub data Intrinsic : Type 0 where
  no_intrinsic memcpy other_mem_intrinsic other_intrinsic : Intrinsic

-- The called function is known by name and may have a subprogram.
pub record Callee : Type 0 where
  pub name : String
  pub subprogram : Option Subprogram

pub record Call : Type 0 where
  pub arguments : List ValueId
  pub callee : Option Callee
  pub intrinsic : Intrinsic
  pub heapallocsite : Option (Option NodeId)

pub data Value : Type 0 where
  alloca : Value
  store : record { value : ValueId; pointer : ValueId } → Value
  load : ValueId → Value
  gep_inst : GepOperator → Value
  bit_cast : ValueId → Value
  phi : List ValueId → Value
  -- call, callbr and invoke, the first by `true`
  call : Bool → Call → Value
  sext : ValueId → Value
  ret : Option Subprogram → Value
  other_inst : Value
  -- constant expressions
  gep_expr : GepOperator → Value
  bit_cast_expr : ValueId → Value
  other_expr : Value
  -- arguments: the subprogram of their function, their number, and whether they carry `sret`
  argument : record { subprogram : Option Subprogram; arg_no : ℕ; struct_ret : Bool } → Value
  -- global variables: the variable of their debug expression, and their initializer
  global_var : record { variable : Option NodeId; initializer : Option ValueId } → Value
  -- the width in bits, and the 64-bit pattern of the sign-extended value
  constant_int : ℕ → ℕ → Value
  other_value : Value

pub record Ir : Type 0 where
  pub value : ValueId → Value
  pub users : ValueId → List ValueId
  pub debug_loc : ValueId → Option DebugLoc

abbrev pub is_instruction : Value → Bool
is_instruction alloca = true
is_instruction (store s) = true
is_instruction (load p) = true
is_instruction (gep_inst p) = true
is_instruction (bit_cast p) = true
is_instruction (phi vs) = true
is_instruction (call b c) = true
is_instruction (sext p) = true
is_instruction (ret s) = true
is_instruction other_inst = true
is_instruction _ = false
