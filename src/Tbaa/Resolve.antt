-- ===== src/Tbaa/Resolve.antt =====
-- resolve_tbaa of lib/type/TBAA.cpp: the type that the access tag of an instruction selects below
-- a type.
use llvm_dimeta.Base.{
  leb, ◌==◌, if◌then◌else◌, get_elem?, failed_assertion, out_of_bounds, Outcome, done, fault,
  out_of_fuel, ◌>>=◌, ◌>>◌, deref, assert, ℕ, zero, suc, ◌-◌, ◌/◌, String, Bool, true, false, not,
  ◌&&◌, Option, none, some, List, [], ◌∷◌, str_eq,
}
use llvm_dimeta.Metadata.{
  NodeId, DerivedType, CompositeType, Metadata, as_derived, as_composite, Ptr,
}
use llvm_dimeta.Ir.{ValueId}
use llvm_dimeta.DiUtil.{get_num_composite_members, get_composite_members}
use llvm_dimeta.DiUtil.ByteOffset.{StructMember, resolve_byte_offset_to_member_of}
use llvm_dimeta.Visitor.{Kind, at_composite_type, Hooks, default_hooks, start, invoke_if_any}
use llvm_dimeta.Tbaa.{
  MdId, MdOperand, TbaaData, TbaaHandle, as_md_constant, create_handle, name_of, access_is_ptr,
  tbaa_operand_count, tbaa_sub_node_matches_name,
}

-- The identifier of a composite type, or its name where there is none
abbrev pub id_of : CompositeType → String
id_of c = if str_eq c.identifier "" then c.name else c.identifier

-- The fields of FindMatchingMember
pub record FindMatchingMember : Type 0 where
  pub composite_name : String
  pub result : Option NodeId

-- reset_base and subtract_offset
abbrev pub reset_base : TbaaHandle → MdId → ℕ → TbaaHandle
reset_base h new_base_ty offset = record h {
  base_ty = some new_base_ty;
  offset_value = h.offset_value - offset;
}

module _ (g : Metadata) where
  unfoldable pub visit_matching :
      Kind → NodeId → FindMatchingMember → Outcome (FindMatchingMember × Bool)
  visit_matching at_composite_type n s = elim (as_composite (g n)) [
    | none ↦ done (s, true)
    | some c ↦ done (
        if str_eq (id_of c) s.composite_name
        then (record s { result = some n }, false)
        else (s, true))
  ]
  visit_matching k n s = done (s, true)

  abbrev pub matching_hooks : Hooks FindMatchingMember
  matching_hooks = record (default_hooks FindMatchingMember) { visit = visit_matching }

  -- The traversal starts with traverseCompositeType at the composite `n`.
  unfoldable pub find_composite_with_name : ℕ → String → NodeId → Outcome (Option NodeId)
  unfolding invoke_if_any visit_matching
  find_composite_with_name walk name n = do
    r ←
        invoke_if_any matching_hooks g walk n
          (start (record { composite_name = name; result = none }))
    done r.0.sub.result

  -- The loop of composite_fits_tbaa over the operands; the members that are left are `elements`.
  unfoldable pub offsets_fit : List MdOperand → List DerivedType → ℕ → Outcome Bool
  offsets_fit [] elements position = done true
  offsets_fit (o ∷ os) elements position =
      let rest = offsets_fit os elements in
      elim (as_md_constant o) [
        | none ↦ rest position
        | some offset ↦ elim (get_elem? elements position) [
          | none ↦ fault out_of_bounds
          | some m ↦ if offset == m.offset_in_bits / 8 then rest (suc position) else done false
        ]
      ]

  unfoldable pub composite_fits_tbaa : TbaaData → CompositeType → TbaaHandle → Outcome Bool
  unfolding get_num_composite_members get_composite_members tbaa_operand_count offsets_fit
  composite_fits_tbaa tbaa c h = do
    count ← tbaa_operand_count tbaa h.base_ty
    if get_num_composite_members g c == count
        then (do n ← deref h.base_ty; offsets_fit (tbaa.operands n) (get_composite_members g c) 0)
        else done false

  -- The lambda find_composite of tbaa_resolver
  unfoldable pub find_composite : ℕ → Ptr → Outcome Ptr
  find_composite zero t = out_of_fuel
  find_composite (suc fuel) none = done none
  find_composite (suc fuel) (some t) = elim (as_derived (g t)) [
    | none ↦ done (some t)
    | some d ↦ find_composite fuel d.base_type
  ]

  abbrev pub composite_of : NodeId → Outcome CompositeType
  composite_of n = elim (as_composite (g n)) [ none ↦ fault failed_assertion | some c ↦ done c ]

  module _ (tbaa : TbaaData) (walk : ℕ) where
    -- Where the names differ: the composite and the tag to go on with; none where the root is returned.
    -- First with a composite that has the name of the tag's base, then without one: the base becomes the
    -- node below it that has the name of the composite, and the offset is counted from there.
    unfoldable pub match_composite :
        NodeId → CompositeType → TbaaHandle → Option NodeId → Outcome (Option (NodeId × TbaaHandle))
    unfolding get_num_composite_members tbaa_operand_count tbaa_sub_node_matches_name
    match_composite n c h (some m) = do
      d ← composite_of m
      num_tbaa ← tbaa_operand_count tbaa h.base_ty
      done (if get_num_composite_members g d == num_tbaa then some (m, h) else none)
    match_composite n c h none = do
      found ← tbaa_sub_node_matches_name tbaa walk (id_of c) h.base_ty
      elim found.outermost_candidate [
        | none ↦ done none
        | some new_base ↦ do
          assert (leb found.offset_base h.offset_value)
          done (some (n, reset_base h new_base found.offset_base))
      ]

    unfoldable pub match_names :
        NodeId → CompositeType → TbaaHandle → String → Outcome (Option (NodeId × TbaaHandle))
    unfolding find_composite_with_name match_composite
    match_names n c h base_name =
        if not (str_eq (id_of c) base_name) && not (str_eq base_name "")
        then (do sub ← find_composite_with_name walk base_name n; match_composite n c h sub)
        else done (some (n, h))

    -- From `No name match possible` on; `c` is the composite whose name was compared.
    unfoldable pub select_matched :
        CompositeType → Option (NodeId × TbaaHandle) → Outcome (Option (Option StructMember))
    unfolding composite_fits_tbaa access_is_ptr resolve_byte_offset_to_member_of
    select_matched c none = done none
    select_matched c (some (m, k)) = do
      d ← composite_of m
      fits ← (if str_eq (id_of c) "" then composite_fits_tbaa tbaa d k else done true)
      if fits
          then (do
            is_ptr ← access_is_ptr tbaa k
            assert is_ptr
            r ← resolve_byte_offset_to_member_of g walk m k.offset_value
            done (some r))
          else done none

    -- From the composite type `n` on: none where the root is returned, else what the offset selects.
    unfoldable pub select_member :
        NodeId → CompositeType → TbaaHandle → Outcome (Option (Option StructMember))
    unfolding match_names select_matched
    select_member n c h = do
      base_name ← name_of tbaa h.base_ty
      matched ← match_names n c h base_name
      select_matched c matched

    -- The result of tbaa_resolver from that of select_member
    abbrev pub type_or_root : Ptr → Option (Option StructMember) → Option Ptr
    type_or_root root none = some root
    type_or_root root (some none) = none
    type_or_root root (some (some m)) = elim m.type_of_member [
      | none ↦ none
      | some t ↦ some (some t)
    ]

    unfoldable pub resolve_below : Ptr → TbaaHandle → Ptr → Outcome (Option Ptr)
    unfolding select_member
    resolve_below root h none = done (some root)
    resolve_below root h (some n) = elim (as_composite (g n)) [
      | none ↦ done (some root)
      | some c ↦ do r ← select_member n c h; done (type_or_root root r)
    ]

    unfoldable pub tbaa_resolver : ℕ → Ptr → TbaaHandle → Outcome (Option Ptr)
    unfolding find_composite resolve_below
    tbaa_resolver chain root h = do
      maybe_composite ← find_composite chain root
      resolve_below root h maybe_composite

    -- Two pointers to metadata are the same.
    abbrev pub same_node : Option MdId → Option MdId → Bool
    same_node none none = true
    same_node (some a) (some b) = a == b
    same_node _ _ = false

    unfoldable pub resolve_tbaa : ℕ → Ptr → ValueId → Outcome (Option Ptr)
    unfolding create_handle access_is_ptr tbaa_resolver
    resolve_tbaa chain root instruction = do
      handle ← create_handle tbaa instruction
      elim handle [
        | none ↦ done (some root)
        | some h ↦ do
          same_pointer ←
              (if same_node h.base_ty h.access_ty then access_is_ptr tbaa h else done false)
          if same_pointer then done (some root) else tbaa_resolver chain root h
      ]
