-- ===== src/TypeExtractor/Store.antt =====
-- What a store does to the type at the end of a path, in lib/type/DITypeExtractor.cpp.
use llvm_dimeta.Base.{
  if◌then◌else◌, has_value, failed_assertion, Outcome, done, fault, ◌>>=◌, deref, ℕ, Bool, true,
  false, not, ◌&&◌, ◌||◌, Option, none, some, starts_with,
}
use llvm_dimeta.Metadata.{NodeId, DerivedType, derived, Metadata, as_derived, as_composite, Ptr}
use llvm_dimeta.Ir.{ValueId, Ir}
use llvm_dimeta.DiUtil.{
  is_pointer, is_pointer_like, is_non_static_member, is_array, is_array_member, desugar,
}
use llvm_dimeta.DiUtil.ByteOffset.{StructMember}
use llvm_dimeta.Tbaa.{TbaaData}
use llvm_dimeta.TypeExtractor.{
  is_alloca, is_global, is_argument, is_load, get_operand_to, leads_to, store_to_array_gep,
  first_member,
}

-- The option DIMETA_USE_TBAA of the build, the metadata of the program, and the fuel of the loops along
-- base types and of the traversals
module _ (use_tbaa : Bool) (tbaa : TbaaData) (g : Metadata) (ir : Ir) (chain walk : ℕ) where
  -- A member whose base type is no pointer
  unfoldable pub is_non_pointer_member : NodeId → Outcome Bool
  unfolding is_non_static_member is_pointer_like
  is_non_pointer_member t =
      if is_non_static_member (g t)
      then elim (as_derived (g t)) [
        | none ↦ fault failed_assertion
        | some d ↦ do b ← deref d.base_type; done (not (is_pointer_like (g b)))
      ]
      else done false

  -- The member's name starts with `_vptr`.
  abbrev pub is_vptr : StructMember → Bool
  is_vptr m = elim m.member [
    | none ↦ false
    | some n ↦ elim (as_derived (g n)) [ none ↦ false | some d ↦ starts_with d.name "_vptr" ]
  ]

  -- A store to something of composite type: the type of the first member; none goes on.
  unfoldable pub store_to_first : NodeId → ValueId → Outcome (Option (Option Ptr))
  unfolding desugar get_operand_to is_non_pointer_member first_member
  store_to_first t pointer = do
    desugared_composite ← desugar g chain 1 t
    is_non_ptr_member ← is_non_pointer_member t
    elim desugared_composite [
      | none ↦ done none
      | some n ↦
          if is_non_ptr_member
            || store_to_array_gep ir pointer
            || leads_to ir is_argument pointer
            || leads_to ir is_load pointer
          then (do
            r ← first_member g walk n
            done (elim r [
              | none ↦ none
              | some m ↦
                  if use_tbaa && is_vptr m
                  then some (some (some t))
                  else some (elim m.type_of_member [ none ↦ none | some u ↦ some (some u) ])
            ]))
          else done none
    ]

  -- The base type of an array in a member: a pointer, else the array itself
  unfoldable pub array_of_member : DerivedType → Outcome Ptr
  unfolding is_array is_pointer
  array_of_member d = do
    b ← deref d.base_type
    elim (as_composite (g b)) [
      | none ↦ fault failed_assertion
      | some c ↦ do e ← deref c.base_type; done (if is_pointer (g e) true then some e else some b)
    ]

  -- A pointer to a pointer loses one level.
  abbrev pub under_pointer : NodeId → DerivedType → Outcome Ptr
  under_pointer t d =
      if is_pointer (derived d) true
      then (do
        b ← deref d.base_type
        done (if has_value (as_derived (g b)) && is_pointer (g b) true then some b else some t))
      else done (some t)

  -- From `Store resolved` on: the type is derived.
  unfoldable pub store_to_derived : NodeId → DerivedType → Bool → Outcome Ptr
  unfolding array_of_member is_non_static_member is_array is_pointer
  store_to_derived t d of_array = do
    in_array ← (if of_array then (do b ← deref d.base_type; done (is_array (g b))) else done false)
    if in_array
        then array_of_member d
        else if is_non_static_member (g t)
        then done d.base_type
        else under_pointer t d

  -- After the part for global variables and allocas
  unfoldable pub store_to_target : NodeId → ValueId → Outcome (Option Ptr)
  unfolding is_array is_array_member store_to_first store_to_derived
  store_to_target t pointer =
      if is_array (g t)
      then elim (as_composite (g t)) [
        | none ↦ fault failed_assertion
        | some c ↦ done (some c.base_type)
      ]
      else (do
        of_array ← is_array_member g (g t)
        first ← (if of_array then done none else store_to_first t pointer)
        elim first [
          | some r ↦ done r
          | none ↦ elim (as_derived (g t)) [
            | none ↦ done (some (some t))
            | some d ↦ do r ← store_to_derived t d of_array; done (some r)
          ]
        ])

  -- The store to the pointer
  unfoldable pub reset_store_related_basic : Ptr → ValueId → Outcome (Option Ptr)
  unfolding get_operand_to store_to_target
  reset_store_related_basic type pointer =
      if leads_to ir is_global pointer || leads_to ir is_alloca pointer
      then done (some type)
      else (do t ← deref type; store_to_target t pointer)
