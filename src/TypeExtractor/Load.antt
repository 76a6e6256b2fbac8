-- ===== src/TypeExtractor/Load.antt =====
-- What a load does to the type at the end of a path, in lib/type/DITypeExtractor.cpp.
use llvm_dimeta.Base.{
  if◌then◌else◌, has_value, null_pointer, Outcome, done, fault, ◌>>=◌, deref, ℕ, Bool, false, not,
  ◌&&◌, ◌||◌, Option, none, some,
}
use llvm_dimeta.Metadata.{NodeId, Metadata, as_derived, as_composite, Ptr}
use llvm_dimeta.Ir.{ValueId, Ir}
use llvm_dimeta.ValuePath.{ValuePath}
use llvm_dimeta.DiUtil.{is_member, is_array_member, desugar}
use llvm_dimeta.Gep.Extract.{is_fortran_descriptor}
use llvm_dimeta.Tbaa.{TbaaData}
use llvm_dimeta.Tbaa.Resolve.{resolve_tbaa}
use llvm_dimeta.TypeExtractor.{
  is_alloca, is_global, starts_at, get_operand_to, leads_to, gep_operand, load_of_array_gep,
  first_member,
}

-- The option DIMETA_USE_TBAA of the build, the metadata of the program, and the fuel of the loops along
-- base types and of the traversals
module _ (use_tbaa : Bool) (tbaa : TbaaData) (g : Metadata) (ir : Ir) (chain walk : ℕ) where
  unfoldable pub try_resolve_to_first_member : NodeId → Outcome (Option Ptr)
  unfolding desugar first_member
  try_resolve_to_first_member candidate_type = do
    comp ← desugar g chain 1 candidate_type
    elim comp [
      | none ↦ done none
      | some n ↦ do
        r ← first_member g walk n
        done (elim r [
          | none ↦ none
          | some m ↦ elim m.type_of_member [ none ↦ none | some t ↦ some (some t) ]
        ])
    ]

  -- The end of reset_load_related_basic: a pointer or another derived type is looked through.
  unfoldable pub look_through : NodeId → ValueId → Outcome (Option Ptr)
  unfolding resolve_tbaa
  look_through t v = elim (as_derived (g t)) [
    | none ↦ done (some (some t))
    | some d ↦
        if use_tbaa
        then (do
          b ← deref d.base_type
          if has_value (as_composite (g b))
              then (do
                r ← resolve_tbaa g tbaa walk chain d.base_type v
                done (elim r [ some p ↦ some p | none ↦ some d.base_type ]))
              else done (some d.base_type))
        else done (some d.base_type)
  ]

  -- The type under an array member, if the array has one
  unfoldable pub element_of_member : NodeId → Outcome (Option NodeId)
  unfolding is_array_member
  element_of_member t = do
    of_array ← is_array_member g (g t)
    if of_array
        then elim (as_derived (g t)) [
          | none ↦ fault null_pointer
          | some d ↦ do
            b ← deref d.base_type
            elim (as_composite (g b)) [ none ↦ fault null_pointer | some c ↦ done c.base_type ]
        ]
        else done none

  -- From `a (last?) load to a GEP` on
  unfoldable pub reset_to_first : ValuePath → NodeId → ValueId → ValueId → Outcome (Option Ptr)
  unfolding try_resolve_to_first_member look_through is_member
  reset_to_first path t v pointer = do
    let last_load = starts_at path v
    resolved ←
        (if (not (is_member (g t)) || last_load) && not (load_of_array_gep ir pointer)
          then try_resolve_to_first_member t
          else done none)
    elim resolved [ some p ↦ done (some p) | none ↦ look_through t v ]

  -- The load `v` of the pointer
  unfoldable pub reset_load_related_basic :
      ValuePath → Ptr → ValueId → ValueId → Outcome (Option Ptr)
  unfolding get_operand_to is_fortran_descriptor element_of_member reset_to_first
  reset_load_related_basic path type v pointer =
      if leads_to ir is_global pointer || leads_to ir is_alloca pointer
      then done (some type)
      else if elim (gep_operand ir pointer) [
        | none ↦ false
        | some gep ↦ is_fortran_descriptor gep.source_element_type
      ]
      then done (some type)
      else (do
        t ← deref type
        element ← element_of_member t
        elim element [ some e ↦ done (some (some e)) | none ↦ reset_to_first path t v pointer ])
