-- ===== src/DiUtil.antt =====
-- lib/type/DIUtil.cpp: the tests on metadata nodes, and `desugar`. `resolve_byte_offset_to_member_of`
-- of the same file is a visitor and stands in DiUtil/ByteOffset.
pub mod Desugar
pub mod ByteOffset
pub mod Members
use llvm_dimeta.Base.{
  ltb, ◌==◌, if◌then◌else◌, count_if, null_pointer, Outcome, done, fault, out_of_fuel, ◌>>=◌, ◌>>◌,
  deref, ℕ, zero, suc, Bool, true, false, not, ◌&&◌, ◌||◌, Option, none, some, List, [], ◌∷◌,
}
use llvm_dimeta.Metadata.{
  dw_tag_array_type, dw_tag_class_type, dw_tag_enumeration_type, dw_tag_member, dw_tag_pointer_type,
  dw_tag_reference_type, dw_tag_string_type, dw_tag_structure_type, dw_tag_typedef,
  dw_tag_union_type, dw_tag_inheritance, dw_tag_ptr_to_member_type, flag_static_member, NodeId,
  DerivedType, CompositeType, DiNode, basic, derived, composite, Metadata, get_tag, as_derived,
  as_composite,
}

-- is_pointer with its flag `count_reference`
unfoldable pub is_pointer : DiNode → Bool → Bool
is_pointer (derived d) count_reference =
    (d.tag == dw_tag_reference_type && count_reference) || d.tag == dw_tag_pointer_type
is_pointer _ count_reference = false

unfoldable pub is_pointer_like : DiNode → Bool
is_pointer_like (derived d) =
    d.tag == dw_tag_array_type
    || d.tag == dw_tag_reference_type
    || d.tag == dw_tag_pointer_type
    || d.tag == dw_tag_ptr_to_member_type
is_pointer_like _ = false

-- DIType::getFlags; a node that is no type has none, and a string or subroutine type sets none.
unfoldable pub flags_of : DiNode → ℕ
flags_of (basic b) = b.flags
flags_of (derived d) = d.flags
flags_of (composite c) = c.flags
flags_of _ = 0

unfoldable pub is_non_static_member : DiNode → Bool
unfolding flags_of
is_non_static_member n = get_tag n == dw_tag_member && not (flags_of n == flag_static_member)

unfoldable pub is_member : DiNode → Bool
unfolding flags_of
is_member n = get_tag n == dw_tag_member || flags_of n == flag_static_member

unfoldable pub is_array : DiNode → Bool
is_array (composite c) = c.tag == dw_tag_array_type
is_array _ = false

unfoldable pub is_string : DiNode → Bool
is_string n = get_tag n == dw_tag_string_type

unfoldable pub is_inheritance : DiNode → Bool
is_inheritance n = get_tag n == dw_tag_inheritance

unfoldable pub is_enum : DiNode → Bool
is_enum n = get_tag n == dw_tag_enumeration_type

unfoldable pub is_struct_or_class : DiNode → Bool
is_struct_or_class n = get_tag n == dw_tag_structure_type || get_tag n == dw_tag_class_type

unfoldable pub is_typedef : DiNode → Bool
is_typedef n = get_tag n == dw_tag_typedef

unfoldable pub is_union : DiNode → Bool
is_union n = get_tag n == dw_tag_union_type

module _ (g : Metadata) where
  -- A member's base type is read through a pointer that may be null.
  unfoldable pub is_array_member : DiNode → Outcome Bool
  unfolding is_member
  is_array_member n =
      if is_member n
      then elim (as_derived n) [
        | some d ↦ do b ← deref d.base_type; done (get_tag (g b) == dw_tag_array_type)
        | none ↦ fault null_pointer
      ]
      else done false

  unfoldable pub get_num_composite_members : CompositeType → ℕ
  get_num_composite_members c = count_if (λ e. is_non_static_member (g e)) c.elements

  -- The members' nodes; a non-static member is a derived type.
  unfoldable pub members_of : List NodeId → List DerivedType
  members_of [] = []
  members_of (e ∷ es) =
      let rest = members_of es in
      elim (as_derived (g e)) [
        | some d ↦ if is_non_static_member (g e) then d ∷ rest else rest
        | none ↦ rest
      ]

  unfoldable pub get_composite_members : CompositeType → List DerivedType
  unfolding members_of
  get_composite_members c = members_of c.elements

  -- The loop of `desugar`: `level` pointers and references were removed so far.
  desugar_loop : ℕ → ℕ → ℕ → Option NodeId → Outcome (Option NodeId)
  desugar_loop zero pointer_level level t = out_of_fuel
  desugar_loop (suc fuel) pointer_level level none = done none
  desugar_loop (suc fuel) pointer_level level (some t) = elim (as_derived (g t)) [
    | some d ↦
        let level' = if is_pointer (derived d) true then suc level else level in
        let rest = desugar_loop fuel pointer_level level' d.base_type in
        if ltb pointer_level level then done (some t) else rest
    | none ↦ done (some t)
  ]

  -- What desugar returns at the end of its loop: the end, if it is a composite type
  abbrev pub if_composite : Option NodeId → Option NodeId
  if_composite none = none
  if_composite (some e) = elim (as_composite (g e)) [ some c ↦ some e | none ↦ none ]

  -- The composite type under at most `pointer_level + 1` pointers, if there is one.
  unfoldable pub desugar : ℕ → ℕ → NodeId → Outcome (Option NodeId)
  unfolding desugar_loop
  desugar fuel pointer_level t = do
    end ← desugar_loop fuel pointer_level 0 (some t)
    done (if_composite end)
