-- ===== src/Gep/Iterate.antt =====
-- `iterate_gep_index` and `resolve_gep_index_to_type` of lib/type/GEP.cpp.
use llvm_dimeta.Base.{
  ltb, ◌==◌, if◌then◌else◌, has_value, add64, length, drop, out_of_bounds, Outcome, done, fault,
  ◌>>=◌, ◌>>◌, deref, assert, index, ℕ, suc, Bool, false, not, ◌&&◌, none, some, List, [], ◌∷◌,
}
use llvm_dimeta.Metadata.{
  NodeId, DerivedType, CompositeType, composite, Metadata, as_derived, as_composite,
  is_static_member,
}
use llvm_dimeta.DiUtil.{is_array, is_struct_or_class}
use llvm_dimeta.DiUtil.ByteOffset.{resolve_byte_offset_to_member_of}
use llvm_dimeta.Gep.{
  GepIndices, GepIndexToType, only_type, select_non_zero_element, find_non_derived_type_unless_ptr,
  count_ebo, composite_at, skip_first_gep_access,
}

module _ (g : Metadata) where
  -- The lambda is_static_member
  abbrev pub is_static_node : NodeId → Bool
  is_static_node n = elim (as_derived (g n)) [ some d ↦ is_static_member d | none ↦ false ]

  -- `while (gep_index < elements.size() && is_static_member(element)) element = elements[++gep_index];`
  -- over the elements from `gep_index` on: `rest` holds those after `element`, and `i` is the index.
  unfoldable pub skip_static : NodeId → List NodeId → ℕ → Outcome (NodeId × ℕ)
  skip_static element [] i =
      if is_static_node element then fault out_of_bounds else done (element, i)
  skip_static element (e ∷ rest) i =
      let next = skip_static e rest (suc i) in
      if is_static_node element then next else done (element, i)

  -- The element that an index selects, and the index after its corrections: for an empty base class
  -- under index 0, for the empty base classes among the elements, for static members.
  unfoldable pub select_element : CompositeType → ℕ → Outcome (NodeId × ℕ)
  unfolding select_non_zero_element count_ebo skip_static
  select_element c gep_index =
      assert (ltb gep_index (length c.elements)) >> index c.elements gep_index >>= λ e0.
      (if gep_index == 0 && ltb 1 (length c.elements)
        then (do e1 ← index c.elements 1; done (select_non_zero_element g e0 e1))
        else done e0)
      >>= λ e1. count_ebo g c.elements >>= λ ebo.
          let shifted = add64 gep_index ebo in
          if ltb 0 gep_index && ltb 0 ebo
          then (do e2 ← index c.elements shifted; done (e2, shifted))
          else done (e1, gep_index)

  -- What one index comes to: the result of the function, the composite for the next index, or
  -- neither, which leaves the composite as it is.
  pub data Round : Type 0 where
    returns : GepIndexToType → Round
    recurses : CompositeType → Round
    goes_on : Round

  -- The end of the loop's body, for a derived member; `has_next` says whether an index is left.
  unfoldable pub enter_member : ℕ → NodeId → DerivedType → Bool → Outcome Round
  enter_member chain member d has_next = do
    t ← find_non_derived_type_unless_ptr g chain d.base_type
    m ← deref t
    let kept = returns (record { type = some t; member = some member })
    done (elim (as_composite (g m)) [
      | none ↦ kept
      | some c ↦
          if is_struct_or_class (composite c) && has_next
          then recurses c
          else if is_array (composite c) && has_next
          then returns (record { type = some c.base_type; member = some member })
          else kept
    ])

  unfoldable pub round : ℕ → CompositeType → ℕ → Bool → Outcome Round
  unfolding select_element enter_member skip_static
  round chain c gep_index has_next = do
    p ← select_element c gep_index
    if not (has_value (as_derived (g p.0))) && is_array (g p.0)
        then done (returns (only_type c.base_type))
        else (do
          q ←
              (if ltb p.1 (length c.elements)
                then skip_static p.0 (drop (suc p.1) c.elements) p.1
                else done p)
          elim (as_derived (g q.0)) [
            | some d ↦ enter_member chain q.0 d has_next
            | none ↦ done goes_on
          ])

  unfoldable pub iterate_gep_index : ℕ → CompositeType → List ℕ → Outcome GepIndexToType
  unfolding round
  iterate_gep_index chain c [] = done (record { type = none; member = none })
  iterate_gep_index chain c (i ∷ rest) = round chain c i (not (length rest == 0)) >>= λ r.
      let on = λ (c' : CompositeType). iterate_gep_index chain c' rest in
      elim r [ returns t ↦ done t | recurses c' ↦ on c' | goes_on ↦ on c ]

  -- `walk` is the fuel of the two other loops: the visitor's, and skip_first_gep_access's.
  unfoldable pub resolve_gep_index_to_type : ℕ → ℕ → NodeId → GepIndices → Outcome GepIndexToType
  unfolding iterate_gep_index skip_first_gep_access resolve_byte_offset_to_member_of
  resolve_gep_index_to_type chain walk n gep_indices = elim gep_indices.indices_ [
    | [] ↦ composite_at g n >>= λ c. done (
        if gep_indices.dynamic_access && is_array (composite c)
        then only_type c.base_type
        else only_type (some n))
    | i ∷ rest ↦
        if gep_indices.is_byte_access
        then (do
          m ← resolve_byte_offset_to_member_of g walk n i
          done (elim m [
            | none ↦ only_type (some n)
            | some s ↦ record { type = some s.type_of_member; member = s.member }
          ]))
        else (do
          n' ←
              (if gep_indices.skipped && not (i == 0)
                then skip_first_gep_access g chain walk n
                else done n)
          c ← composite_at g n'
          iterate_gep_index chain c (i ∷ rest))
  ]
