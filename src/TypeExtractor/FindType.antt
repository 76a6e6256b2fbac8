-- ===== src/TypeExtractor/FindType.antt =====
-- find_type of lib/type/DITypeExtractor.cpp: the type at the end of a path, reset by each value back to
-- the start.

use llvm_dimeta.Base.{
  if◌then◌else◌, reverse, Outcome, done, ◌>>=◌, deref, ℕ, Bool, false, ◌||◌, Option, none, some,
  List, [], ◌∷◌, ◌++◌, starts_with,
}
use llvm_dimeta.Metadata.{Metadata, Ptr}
use llvm_dimeta.Ir.{ValueId, GepOperator, Value, store, load, call, Ir}
use llvm_dimeta.ValuePath.{ValuePath, start_value}
use llvm_dimeta.Dataflow.{as_store}
use llvm_dimeta.Gep.Extract.{is_fortran_descriptor}
use llvm_dimeta.Tbaa.{TbaaData}
use llvm_dimeta.Tbaa.Resolve.{resolve_tbaa}
use llvm_dimeta.TypeExtractor.Load.{reset_load_related_basic}
use llvm_dimeta.TypeExtractor.Store.{reset_store_related_basic}
use llvm_dimeta.TypeExtractor.{as_gep}
use llvm_dimeta.TypeExtractor.FortranType.{IrMapping, final_type, value_or, gep_type, extract}

-- The call allocates for Fortran.
abbrev pub is_fortran_handle : Value → Bool
is_fortran_handle (call b c) = elim c.callee [
  | none ↦ false
  | some f ↦
      starts_with f.name "_FortranAAllocatableAllocate"
      || starts_with f.name "_FortranAPointerAllocate"
]
is_fortran_handle _ = false

abbrev pub is_fortran_call : Ir → Option ValueId → Bool
is_fortran_call ir none = false
is_fortran_call ir (some v) = is_fortran_handle (ir.value v)

module _ (use_tbaa : Bool) (tbaa : TbaaData) (g : Metadata) (ir : Ir) (chain walk : ℕ) where
  -- The member, else the type, else what was there
  unfoldable pub reset_by_gep : Ptr → ValueId → GepOperator → Outcome (Option Ptr)
  unfolding is_fortran_descriptor gep_type
  reset_by_gep type v gep =
      if is_fortran_descriptor gep.source_element_type then done (some type) else (do
        r ← gep_type g ir chain walk v gep type
        done (elim r.member [
          | some m ↦ some (some m)
          | none ↦ elim r.type [ some t ↦ some t | none ↦ some type ]
        ]))

  unfoldable pub reset_ditype : ValuePath → Ptr → ValueId → Outcome (Option Ptr)
  unfolding reset_by_gep reset_load_related_basic reset_store_related_basic
  reset_ditype path type v = elim (as_gep (ir.value v)) [
    | some gep ↦ reset_by_gep type v gep
    | none ↦ elim (ir.value v) [
      | load p ↦ reset_load_related_basic use_tbaa tbaa g ir chain walk path type v p
      | store s ↦ reset_store_related_basic use_tbaa tbaa g ir chain walk type s.pointer
      | _ ↦ done (some type)
    ]
  ]

  -- The loop over the path, from its end to its start; the list is reversed.
  unfoldable pub reset_path :
      ValuePath → List ValueId → Ptr → List IrMapping → Outcome (Ptr × List IrMapping)
  unfolding reset_ditype
  reset_path path [] type dipath = done (type, dipath)
  reset_path path (v ∷ vs) type dipath = do
    r ← reset_ditype path type v
    let mapping : IrMapping = record { from_value = some v; mapped = value_or r none }
    reset_path path vs (value_or r type) (dipath ++ mapping ∷ [])

  -- The mapping that the access tag of a store at the start of the path adds
  unfoldable pub tbaa_mapping : ValuePath → Ptr → Outcome (List IrMapping)
  unfolding resolve_tbaa
  tbaa_mapping path type = do
    s ← deref (start_value path)
    elim (as_store (ir.value s)) [
      | none ↦ done []
      | some pointer ↦ do
        r ← resolve_tbaa g tbaa walk chain type s
        done (elim r [ none ↦ [] | some p ↦ record { from_value = some s; mapped = p } ∷ [] ])
    ]

  -- After find_type_root found `root`: the part for a call that allocates for Fortran is `extract`.
  unfoldable pub type_along :
      (ValueId → ValueId) → Option ValueId → ValuePath → Ptr → Outcome (Option Ptr)
  unfolding extract reset_path tbaa_mapping final_type
  type_along strip c path root =
      if is_fortran_call ir c then extract g ir chain walk strip path root else (do
        r ← reset_path path (reverse path.path_to_value) root []
        added ← (if use_tbaa then tbaa_mapping path r.0 else done [])
        done (final_type (r.1 ++ added)))

  -- find_type, given what find_type_root finds
  unfoldable pub find_type_from :
      (ValueId → ValueId) → Outcome (Option Ptr) → Option ValueId → ValuePath → Outcome (Option Ptr)
  unfolding type_along
  find_type_from strip found c path = do
    root ← found
    elim root [ none ↦ done none | some t ↦ type_along strip c path t ]
