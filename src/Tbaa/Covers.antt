-- ===== src/Tbaa/Covers.antt =====
-- What lib/type/TBAA.cpp selects by an access tag: at which byte of which composite it looks.
use llvm_dimeta.Ir.{ValueId}
use llvm_dimeta.Base.{
  if◌then◌else◌, Bool-cases, done, done-injective, ℕ, String, ◌≡◌, inl, inr, true, false, Option,
  none, some, str_eq,
}
use llvm_dimeta.Metadata.{NodeId, CompositeType, Metadata, as_composite, Ptr}
use llvm_dimeta.DiUtil.ByteOffset.{StructMember, resolve_byte_offset_to_member_of}
use llvm_dimeta.Tbaa.{TbaaData, TbaaHandle, create_handle, name_of, access_is_ptr}
use llvm_dimeta.Tbaa.Resolve.{id_of, composite_fits_tbaa, find_composite, type_or_root, same_node}
use llvm_dimeta.Tbaa.Looks.{Looks}

module _ (g : Metadata) (tbaa : TbaaData) (walk : ℕ) where
  -- The result for the composite that the type is, under its derived types, and the tag
  pub data Resolved (from : Ptr) (h : TbaaHandle) (n : Ptr) (r : Option Ptr) : Type 0 where
    no_composite :
        ((m : NodeId) → n ≡ some m → as_composite (g m) ≡ none)
        → r ≡ some from
        → Resolved from h n r
    no_match :
        (m : NodeId) (c : CompositeType) (name : String)
        → n ≡ some m
        → as_composite (g m) ≡ some c
        → name_of tbaa h.base_ty ≡ done name
        → Looks g tbaa walk m c h name none
        → r ≡ some from
        → Resolved from h n r
    no_fit :
        (m : NodeId) (c : CompositeType) (name : String) (o : NodeId) (d : CompositeType)
        (k : TbaaHandle)
        → n ≡ some m
        → as_composite (g m) ≡ some c
        → name_of tbaa h.base_ty ≡ done name
        → Looks g tbaa walk m c h name (some (o, k))
        → as_composite (g o) ≡ some d
        → str_eq (id_of c) "" ≡ true
        → composite_fits_tbaa g tbaa d k ≡ done false
        → r ≡ some from
        → Resolved from h n r
    member_at :
        (m : NodeId) (c : CompositeType) (name : String) (o : NodeId) (k : TbaaHandle)
        (found : Option StructMember)
        → n ≡ some m
        → as_composite (g m) ≡ some c
        → name_of tbaa h.base_ty ≡ done name
        → Looks g tbaa walk m c h name (some (o, k))
        → resolve_byte_offset_to_member_of g walk o k.offset_value ≡ done found
        → r ≡ type_or_root g tbaa walk from (some found)
        → Resolved from h n r

  -- Without a tag, or with one whose base is its access type and a pointer, the type stays.
  pub data ByTag (chain : ℕ) (from : Ptr) (instruction : ValueId) (r : Option Ptr) : Type 0 where
    untagged : tbaa.tag instruction ≡ none → r ≡ some from → ByTag chain from instruction r
    pointer :
        (h : TbaaHandle)
        → create_handle tbaa instruction ≡ done (some h)
        → same_node g tbaa walk h.base_ty h.access_ty ≡ true
        → access_is_ptr tbaa h ≡ done true
        → r ≡ some from
        → ByTag chain from instruction r
    tagged :
        (h : TbaaHandle) (n : Ptr)
        → create_handle tbaa instruction ≡ done (some h)
        → find_composite g chain from ≡ done n
        → Resolved from h n r
        → ByTag chain from instruction r

  is_pointer :
      (h : TbaaHandle)
      → (if same_node g tbaa walk h.base_ty h.access_ty then access_is_ptr tbaa h else done false)
        ≡ done true
      → (same_node g tbaa walk h.base_ty h.access_ty ≡ true) × (access_is_ptr tbaa h ≡ done true)
  is_pointer h x = elim (Bool-cases (same_node g tbaa walk h.base_ty h.access_ty)) [
    | inl t ↦ (t, rw t at x)
    | inr t ↦
        let z : done false ≡ done true = rw t at x in
        let y : false ≡ true = done-injective false true z in cc
  ]
