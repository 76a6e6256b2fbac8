-- ===== src/Tbaa/Looks.antt =====
-- Where lib/type/TBAA.cpp looks for the member that an access tag selects: in which composite, at which byte.
use llvm_dimeta.DiUtil.{get_num_composite_members}
use llvm_dimeta.Base.{
  fault, failed_assertion, leb, ◌==◌, Bool-cases, Option-cases, done, assert, done-injective, Post,
  >>=-Post_eq, ℕ, ◌-◌, ◌≤◌, String, ◌≡◌, refl, sym, ap, ==_iff, ◌∙◌, inl, inr, Bool, true, false,
  not, ◌&&◌, Option, none, some, arith, str_eq,
}
use llvm_dimeta.Metadata.{NodeId, CompositeType, Metadata, as_composite}
use llvm_dimeta.Tbaa.{
  MdId, TbaaData, TbaaHandle, Destructured, tbaa_operand_count, tbaa_sub_node_matches_name,
}
use llvm_dimeta.Tbaa.Resolve.{
  id_of, find_composite_with_name, composite_of, match_composite, match_names,
}

module _ (g : Metadata) (tbaa : TbaaData) (walk : ℕ) where
  -- The composite's name is not that of the tag's base, which has a name.
  abbrev pub differs : CompositeType → String → Bool
  differs c name = not (str_eq (id_of c) name) && not (str_eq name "")

  -- Where to look for the member, below the composite `n`: with the tag itself in `n`, if the names agree;
  -- in a composite below `n` that has the name of the tag's base, if it has as many members as the base;
  -- or in `n`, at the offset that is left behind the node of the base's that has the name of `n`.
  pub data Looks (n : NodeId) (c : CompositeType) (h : TbaaHandle) (name : String)
      (r : Option (NodeId × TbaaHandle)) : Type 0 where
    here : differs c name ≡ false → r ≡ some (n, h) → Looks n c h name r
    inside :
        (m : NodeId) (d : CompositeType)
        → differs c name ≡ true
        → find_composite_with_name g walk name n ≡ done (some m)
        → as_composite (g m) ≡ some d
        → tbaa_operand_count tbaa h.base_ty ≡ done (get_num_composite_members g d)
        → r ≡ some (m, h)
        → Looks n c h name r
    wrong_count :
        (m : NodeId) (d : CompositeType) (k : ℕ)
        → differs c name ≡ true
        → find_composite_with_name g walk name n ≡ done (some m)
        → as_composite (g m) ≡ some d
        → tbaa_operand_count tbaa h.base_ty ≡ done k
        → (get_num_composite_members g d == k) ≡ false
        → r ≡ none
        → Looks n c h name r
    behind :
        (found : Destructured) (new_base : MdId)
        → differs c name ≡ true
        → find_composite_with_name g walk name n ≡ done none
        → tbaa_sub_node_matches_name tbaa walk (id_of c) h.base_ty ≡ done found
        → found.outermost_candidate ≡ some new_base
        → found.offset_base ≤ h.offset_value
        → r
          ≡ some (
            n,
            record h { base_ty = some new_base; offset_value = h.offset_value - found.offset_base },
          )
        → Looks n c h name r
    not_found :
        (found : Destructured)
        → differs c name ≡ true
        → find_composite_with_name g walk name n ≡ done none
        → tbaa_sub_node_matches_name tbaa walk (id_of c) h.base_ty ≡ done found
        → found.outermost_candidate ≡ none
        → r ≡ none
        → Looks n c h name r

  pub composite_of_lem :
      (m : NodeId) (d : CompositeType) → composite_of g m ≡ done d → as_composite (g m) ≡ some d
  composite_of_lem m d e = elim (Option-cases (as_composite (g m))) [
    | inl n ↦ let f : fault failed_assertion ≡ done d = rw (n, composite_of) at e in cc
    | inr (c, s) ↦ s ∙ ap some (done-injective c d (rw (s, composite_of) at e))
  ]

  assert-leb : (a b : ℕ) (u : Unit) → assert (leb a b) ≡ done u → a ≤ b
  assert-leb a b u e = elim (Bool-cases (leb a b)) [
    | inl t ↦ ground arith
    | inr f ↦ let x : fault failed_assertion ≡ done u = rw (f, assert) at e in cc
  ]

  match_composite-Looks :
      (n : NodeId) (c : CompositeType) (h : TbaaHandle) (name : String) (sub : Option NodeId)
      → differs c name ≡ true
      → find_composite_with_name g walk name n ≡ done sub
      → Post (Looks n c h name) (match_composite g tbaa walk n c h sub)
  unfolding match_composite
  match_composite-Looks n c h name (some m) b f =
      let P = Looks n c h name in
      >>=-Post_eq P (composite_of g m) _ λ d e.
        >>=-Post_eq P (tbaa_operand_count tbaa h.base_ty) _ λ k count.
          elim (Bool-cases (get_num_composite_members g d == k)) [
            | inl same ↦ rw same (
                inside m d b f (composite_of_lem m d e)
                  (count ∙ ap done (sym ((==_iff (get_num_composite_members g d) k).0 same))) refl)
            | inr other ↦ rw other (wrong_count m d k b f (composite_of_lem m d e) count other refl)
          ]
  match_composite-Looks n c h name none b f =
      let P = Looks n c h name in
      >>=-Post_eq P (tbaa_sub_node_matches_name tbaa walk (id_of c) h.base_ty) _ λ found e.
        elim (Option-cases found.outermost_candidate) [
          | inl none_matches ↦ rw none_matches (not_found found b f e none_matches refl)
          | inr (new_base, s) ↦ rw s (
              >>=-Post_eq P (assert (leb found.offset_base h.offset_value)) _ λ u a.
                behind found new_base b f e s (assert-leb found.offset_base h.offset_value u a)
                  refl)
        ]

  pub match_names-Looks :
      (n : NodeId) (c : CompositeType) (h : TbaaHandle) (name : String)
      → Post (Looks n c h name) (match_names g tbaa walk n c h name)
  unfolding match_names
  match_names-Looks n c h name = elim (Bool-cases (differs c name)) [
    | inl other ↦
        rw (other, match_names)
          (>>=-Post_eq (Looks n c h name) (find_composite_with_name g walk name n) _
            λ sub e. match_composite-Looks n c h name sub other e)
    | inr same ↦ rw (same, match_names) (here same refl)
  ]
