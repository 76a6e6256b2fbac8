-- ===== src/Calls.antt =====
-- lib/type/Dimeta.cpp: the type of an allocation call, of an alloca and of a global variable.
pub mod TypeFor
pub mod Final
pub mod Config
pub mod Result
use llvm_dimeta.Base.{
  leb, if◌then◌else◌, has_value, length, Outcome, done, out_of_fuel, ◌>>=◌, ◌>>◌, deref, ℕ, zero,
  suc, Bool, true, false, not, ◌&&◌, Option, none, some, List,
}
use llvm_dimeta.Metadata.{NodeId, derived, Metadata, as_derived, Ptr}
use llvm_dimeta.Ir.{ValueId, DebugLoc, Call}
use llvm_dimeta.ValuePath.{ValuePath}
use llvm_dimeta.MemoryOps.{is_alloc, is_new_like, is_cuda_like, is_fortran_like, is_mpi_like}
use llvm_dimeta.DiUtil.{is_pointer}
use llvm_dimeta.Dataflow.Fortran.{IndexDim}

pub data CallBaseTypeSource : Type 0 where
  return_value_forward_then_backward argument_backward : CallBaseTypeSource
  fortran_descriptor heap_alloc_site : CallBaseTypeSource

-- An `int` is its 32-bit pattern.
pub record ResolvedCallBaseTypeConfig : Type 0 where
  pub source : CallBaseTypeSource
  pub argument_index : ℕ
  pub pointer_level_offset : ℕ

-- CallBaseTypeConfig of lib/type/Dimeta.h
pub data Dataflow : Type 0 where
  auto_dataflow return_value_dataflow argument_dataflow : Dataflow

pub record CallBaseTypeConfig : Type 0 where
  pub dataflow : Dataflow
  pub argument_index : ℕ
  pub pointer_level_offset : ℕ

abbrev pub is_auto : Dataflow → Bool
is_auto auto_dataflow = true
is_auto return_value_dataflow = false
is_auto argument_dataflow = false

pub data MemLoc : Type 0 where
  stack heap global : MemLoc

pub record DimetaData : Type 0 where
  pub memory_location : MemLoc
  pub di_variable : Option NodeId
  pub entry_type : Option Ptr
  pub base_type : Option Ptr
  pub di_location : Option DebugLoc
  pub shape_descriptor : Option (List IndexDim)
  pub pointer_level : ℕ

pub record FortranType : Type 0 where
  pub type : Ptr
  pub shape_argument : Option (List IndexDim)

-- LocalAccessData of lib/type/DIFinder.h; of the expression only its presence matters here.
pub record LocalAccessData : Type 0 where
  pub var : NodeId
  pub array_access : Bool

-- What lib/type/DITypeExtractor.cpp and lib/type/DIFinder.cpp offer to this file
pub record Finder : Type 0 where
  pub find_type : Option ValueId → ValuePath → Outcome (Option Ptr)
  pub find_local_variable : ValueId → Option NodeId
  pub find_location : ValueId → Option DebugLoc
  pub get_array_access_assignment : ValueId → Option LocalAccessData

-- The call may be null; the option DIMETA_USE_HEAPALLOCSITE of the build is the first argument.
unfoldable pub resolve_auto_callbase_config : Bool → Option Call → Option ResolvedCallBaseTypeConfig
unfolding is_alloc is_fortran_like is_cuda_like is_mpi_like is_new_like
resolve_auto_callbase_config use_heapallocsite none = none
resolve_auto_callbase_config use_heapallocsite (some c) = elim c.callee [
  | none ↦ none
  | some f ↦
      if not (is_alloc f.name)
      then none
      else if is_fortran_like f.name
      then some
          (record { source = fortran_descriptor; argument_index = 0; pointer_level_offset = 0 })
      else if is_cuda_like f.name
      then some
          (record { source = argument_backward; argument_index = 0; pointer_level_offset = 0 })
      else if is_mpi_like f.name
      then some
          (record { source = argument_backward; argument_index = 2; pointer_level_offset = 0 })
      else if use_heapallocsite && (is_new_like f.name && has_value c.heapallocsite)
      then some (record { source = heap_alloc_site; argument_index = 0; pointer_level_offset = 1 })
      else some (record {
        source = return_value_forward_then_backward;
        argument_index = 0;
        pointer_level_offset = 0;
      })
]

unfoldable pub resolve_callbase_config :
    Bool → Option Call → CallBaseTypeConfig → Option ResolvedCallBaseTypeConfig
unfolding resolve_auto_callbase_config
resolve_callbase_config use_heapallocsite none config = none
resolve_callbase_config use_heapallocsite (some c) config = elim config.dataflow [
  | auto_dataflow ↦ resolve_auto_callbase_config use_heapallocsite (some c)
  | argument_dataflow ↦
      if leb (length c.arguments) config.argument_index
      then none
      else some (record {
        source = argument_backward;
        argument_index = config.argument_index;
        pointer_level_offset = config.pointer_level_offset;
      })
  | return_value_dataflow ↦ some (record {
    source = return_value_forward_then_backward;
    argument_index = 0;
    pointer_level_offset = config.pointer_level_offset;
  })
]

-- The last test of type_for: an explicit configuration must have extracted a type.
abbrev pub keep_typed : Dataflow → Option DimetaData → Option DimetaData
keep_typed dataflow none = none
keep_typed dataflow (some d) =
    if not (is_auto dataflow) && not (has_value d.entry_type) then none else some d

module _ (g : Metadata) where
  -- The loop of final_ditype at the type `t`, `level` pointers having been counted
  unfoldable pub final_loop : ℕ → ℕ → NodeId → Outcome (NodeId × ℕ)
  final_loop zero level t = out_of_fuel
  final_loop (suc fuel) level t = elim (as_derived (g t)) [
    | none ↦ done (t, level)
    | some d ↦
        let rest = final_loop fuel in
        let level' = if is_pointer (derived d) false then suc level else level in
        elim d.base_type [ none ↦ done (t, level') | some b ↦ rest level' b ]
  ]

  -- `isa` on a null pointer is undefined.
  unfoldable pub final_ditype : ℕ → Option Ptr → Outcome (Option Ptr × ℕ)
  unfolding final_loop
  final_ditype fuel none = done (none, 0)
  final_ditype fuel (some p) = do t ← deref p; r ← final_loop fuel 0 t; done (some (some r.0), r.1)
