-- ===== src/Tbaa/Fits.antt =====
-- composite_fits_tbaa of lib/type/TBAA.cpp against a description of the layout.
use llvm_dimeta.DiUtil.{get_num_composite_members, get_composite_members}
use llvm_dimeta.Base.{
  ◌==◌, lt→ltb, ==_iff, Bool-cases, length, get_elem?, drop, done, ℕ, zero, suc, ◌-◌, ◌/◌, ◌<◌, ◌≡◌,
  refl, sym, ◌∙◌, ◌↔◌, ◌⊎◌, inl, inr, true, false, none, some, List, [], ◌∷◌, map,
}
use llvm_dimeta.Metadata.{DerivedType, CompositeType, Metadata}
use llvm_dimeta.Tbaa.{
  MdId, MdOperand, md_string, md_node, md_constant, md_value, md_other, TbaaData, TbaaHandle,
  as_md_constant, tbaa_operand_count,
}
use llvm_dimeta.Tbaa.Resolve.{offsets_fit, composite_fits_tbaa}

-- The offsets in a node, and those of members, in bytes
abbrev pub constants : List MdOperand → List ℕ
constants [] = []
constants (o ∷ os) =
    let rest = constants os in elim (as_md_constant o) [ none ↦ rest | some n ↦ n ∷ rest ]

abbrev pub byte_offsets : List DerivedType → List ℕ
byte_offsets ms = map (λ d. d.offset_in_bits / 8) ms

-- The one list begins with the other.
abbrev pub IsPrefix : List ℕ → List ℕ → Type 0
IsPrefix [] ys = Unit
IsPrefix (x ∷ xs) [] = ⊥
IsPrefix (x ∷ xs) (y ∷ ys) = (x ≡ y) × IsPrefix xs ys

drop_step :
    (es : List DerivedType) (p : ℕ)
    → (get_elem? es p ≡ none) × (drop p es ≡ [])
      ⊎ (m : DerivedType) × (get_elem? es p ≡ some m) × (drop p es ≡ m ∷ drop (suc p) es)
drop_step [] p = inl (refl, nothing p)
  where
    nothing : (q : ℕ) → drop {A = DerivedType} q [] ≡ []
    nothing zero = refl
    nothing (suc q) = refl
drop_step (e ∷ es) zero = inr (e, refl, refl)
drop_step (e ∷ es) (suc p) = drop_step es p

offsets_fit-IsPrefix :
    (g : Metadata) (os : List MdOperand) (es : List DerivedType) (p : ℕ)
    → (offsets_fit g os es p ≡ done true) ↔ IsPrefix (constants os) (byte_offsets (drop p es))
unfolding offsets_fit
offsets_fit-IsPrefix g [] es p = (λ h. tt, λ h. refl)
offsets_fit-IsPrefix g (md_string t ∷ os) es p = offsets_fit-IsPrefix g os es p
offsets_fit-IsPrefix g (md_node n ∷ os) es p = offsets_fit-IsPrefix g os es p
offsets_fit-IsPrefix g (md_value ∷ os) es p = offsets_fit-IsPrefix g os es p
offsets_fit-IsPrefix g (md_other ∷ os) es p = offsets_fit-IsPrefix g os es p
offsets_fit-IsPrefix g (md_constant k ∷ os) es p = elim (drop_step es p) [
  | inl (missing, gone) ↦ rw (missing, offsets_fit, gone) (λ h. cc, λ h. absurd h)
  | inr (m, found, here) ↦ elim (Bool-cases (k == m.offset_in_bits / 8)) [
    | inl same ↦
        let (there, back) = offsets_fit-IsPrefix g os es (suc p) in
        rw (found, offsets_fit, here, same)
          (λ h. ((==_iff k (m.offset_in_bits / 8)).0 same, there h), λ h. back h.1)
    | inr differs ↦
        rw (found, offsets_fit, here, differs)
          (
            λ h. cc,
            λ h.
                (let b : true ≡ false = sym ((==_iff k (m.offset_in_bits / 8)).1 h.0) ∙ differs in
                  cc),
          )
  ]
]

-- If the tag's base is a node with operands, the composite fits it exactly when it has as many members as
-- the node has pairs, and the offsets of the members in bytes begin with the constants of the node.
pub composite_fits_tbaa-IsPrefix :
    (g : Metadata) (tbaa : TbaaData) (c : CompositeType) (h : TbaaHandle) (n : MdId)
    → h.base_ty ≡ some n
    → 0 < length (tbaa.operands n)
    → (composite_fits_tbaa g tbaa c h ≡ done true)
      ↔ (get_num_composite_members g c ≡ (length (tbaa.operands n) - 1) / 2)
        × IsPrefix (constants (tbaa.operands n)) (byte_offsets (get_composite_members g c))
unfolding composite_fits_tbaa tbaa_operand_count
composite_fits_tbaa-IsPrefix g tbaa c h n e l =
    let count = (length (tbaa.operands n) - 1) / 2 in
    let (there, back) = offsets_fit-IsPrefix g (tbaa.operands n) (get_composite_members g c) 0 in
    elim (Bool-cases (get_num_composite_members g c == count)) [
      | inl same ↦
          rw (e, lt→ltb 0 (length (tbaa.operands n)) l, same)
            (λ k. ((==_iff (get_num_composite_members g c) count).0 same, there k), λ k. back k.1)
      | inr differs ↦
          rw (e, lt→ltb 0 (length (tbaa.operands n)) l, differs)
            (
              λ k. cc,
              λ k.
                  (let b : true ≡ false =
                      sym ((==_iff (get_num_composite_members g c) count).1 k.0) ∙ differs in
                    cc),
            )
    ]
