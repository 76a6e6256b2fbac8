-- ===== src/TypeExtractor/FortranType.antt =====
-- lib/type/DIFortranTypeExtractor.cpp: the type that an allocation by Flang's runtime library is given.
use llvm_dimeta.Base.{
  ◌==◌, if◌then◌else◌, has_value, back?, reverse, null_pointer, failed_assertion, Outcome, done,
  fault, ◌>>=◌, deref, index, ℕ, Bool, ◌&&◌, Option, none, some, List, [], ◌∷◌, ◌++◌,
}
use llvm_dimeta.Metadata.{Metadata, as_composite, Ptr}
use llvm_dimeta.Ir.{ValueId, GepOperator, call, Ir}
use llvm_dimeta.ValuePath.{ValuePath, value, path_size}
use llvm_dimeta.DiUtil.ByteOffset.{resolve_byte_offset_to_member_of}
use llvm_dimeta.Dataflow.{is_memcpy}
use llvm_dimeta.Gep.{GepIndexToType, only_type}
use llvm_dimeta.Gep.Extract.{
  is_pointer_ty, is_array_ty, is_fortran_descriptor, try_resolve_inlined_operator,
  extract_gep_dereferenced_type,
}
use llvm_dimeta.TypeExtractor.{is_global, as_gep}

-- IRMapping of lib/type/DIPath.h, without the reason that is only printed
pub record IrMapping : Type 0 where
  pub from_value : Option ValueId
  pub mapped : Ptr

-- ValueToDiPath: final_type is that of the last mapping; a null pointer is no type.
unfoldable pub final_type : List IrMapping → Option Ptr
final_type path_to_ditype = elim (back? path_to_ditype) [
  | none ↦ none
  | some m ↦ elim m.mapped [ none ↦ none | some t ↦ some (some t) ]
]

abbrev pub value_or {ℓ} : {A : Type ℓ} → Option A → A → A
value_or none a = a
value_or (some b) a = b

module _ (g : Metadata) (ir : Ir) (chain walk : ℕ) where
  -- extract_gep_dereferenced_type of a type that may be null
  unfoldable pub gep_type : ValueId → GepOperator → Ptr → Outcome GepIndexToType
  unfolding extract_gep_dereferenced_type try_resolve_inlined_operator
  gep_type v gep (some t) = extract_gep_dereferenced_type ir g chain walk v gep t
  gep_type v gep none = do
    inlined ← try_resolve_inlined_operator ir g chain v gep
    elim inlined [
      | some t ↦ done t
      | none ↦
          if is_pointer_ty gep.source_element_type
          then done (only_type none)
          else if is_array_ty gep.source_element_type
          then done (only_type none)
          else fault null_pointer
    ]

  -- reset_ditype: only a GEP, and no GEP of a descriptor, changes the type.
  unfoldable pub fortran_reset_ditype : Ptr → ValueId → Outcome (Option Ptr)
  unfolding is_fortran_descriptor gep_type
  fortran_reset_ditype type v = elim (as_gep (ir.value v)) [
    | none ↦ done (some type)
    | some gep ↦ if is_fortran_descriptor gep.source_element_type then done (some type) else (do
      r ← gep_type v gep type
      done (elim r.member [ some m ↦ some (some m) | none ↦ r.type ]))
  ]

  -- The loop over the path, from its end to its start; the list is reversed.
  unfoldable pub fortran_reset_path :
      List ValueId → Ptr → List IrMapping → Outcome (Ptr × List IrMapping)
  unfolding fortran_reset_ditype
  fortran_reset_path [] type dipath = done (type, dipath)
  fortran_reset_path (v ∷ vs) type dipath = do
    r ← fortran_reset_ditype type v
    let mapping : IrMapping = record { from_value = some v; mapped = value_or r none }
    fortran_reset_path vs (value_or r type) (dipath ++ mapping ∷ [])

  -- MemCpyInst::getSource strips pointer casts, which is left to the function `strip` of LLVM.
  module _ (strip : ValueId → ValueId) where
    -- The loop over the users: a memcpy decides by its source.
    unfoldable pub global_source : List ValueId → Bool → Outcome Bool
    global_source [] is_global_target = done is_global_target
    global_source (u ∷ us) is_global_target =
        let rest = global_source us in
        if is_memcpy (ir.value u)
        then elim (ir.value u) [
          | call b c ↦ do a ← index c.arguments 1; rest (is_global (ir.value (strip a)))
          | _ ↦ fault failed_assertion
        ]
        else rest is_global_target

    unfoldable pub only_global : ValuePath → Outcome Bool
    unfolding global_source
    only_global path = do
      v ← deref (value path)
      global_source (ir.users v) (is_global (ir.value v) && path_size path == 1)

    -- What is added for a global variable of composite type: its first member's type
    unfoldable pub first_of_global : Ptr → Outcome (List IrMapping)
    unfolding resolve_byte_offset_to_member_of
    first_of_global ditype_final = do
      t ← deref ditype_final
      if has_value (as_composite (g t))
          then (do
            struct_mem ← resolve_byte_offset_to_member_of g walk t 0
            done (elim struct_mem [
              | none ↦ []
              | some m ↦
                  record {
                    from_value = none;
                    mapped = elim m.type_of_member [ none ↦ some t | some u ↦ some u ];
                  }
                  ∷ []
            ]))
          else done []

    -- The path of a call; the search for a type descriptor that only the log reports is left out.
    unfoldable pub extract : ValuePath → Ptr → Outcome (Option Ptr)
    unfolding fortran_reset_path only_global first_of_global final_type
    extract path type = do
      r ← fortran_reset_path (reverse path.path_to_value) type []
      of_global ← only_global path
      added ← (if of_global then first_of_global r.0 else done [])
      done (final_type (r.1 ++ added))
