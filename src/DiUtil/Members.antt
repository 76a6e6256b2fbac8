-- ===== src/DiUtil/Members.antt =====
-- The members of a composite type, as lib/type/DIUtil.cpp counts and collects them.
use llvm_dimeta.Base.{
  Bool-cases, Option-cases, has_value, length, count_if, All, suc, ◌≡◌, refl, ap, subst, inl, inr,
  true, false, List, [], ◌∷◌,
}
use llvm_dimeta.Metadata.Chain.{as_derived-some}
use llvm_dimeta.Metadata.{NodeId, CompositeType, derived, Metadata, as_derived}
use llvm_dimeta.DiUtil.{
  is_non_static_member, get_num_composite_members, members_of, get_composite_members,
}

module _ (g : Metadata) where
  -- Elements with the tag of a member are derived types.
  abbrev pub MembersDerived : List NodeId → Type 0
  MembersDerived es =
      All (λ e. is_non_static_member (g e) ≡ true → has_value (as_derived (g e)) ≡ true) es

  members_of-lengths :
      (es : List NodeId)
      → MembersDerived es
      → (length (members_of g es) ≡ count_if (λ e. is_non_static_member (g e)) es)
        × All (λ d. is_non_static_member (derived d) ≡ true) (members_of g es)
  unfolding members_of
  members_of-lengths [] k = (refl, tt)
  members_of-lengths (e ∷ es) (h, k) =
      let (l, a) = members_of-lengths es k in
      elim (Option-cases (as_derived (g e))) [
        | inl n ↦ elim (Bool-cases (is_non_static_member (g e))) [
          | inl m ↦ let b : false ≡ true = rw n at (h m) in cc
          | inr m ↦ (rw (n, members_of) (rw m l), rw (n, members_of) a)
        ]
        | inr (d, s) ↦ elim (Bool-cases (is_non_static_member (g e))) [
          | inl m ↦ (
            rw (s, members_of) (rw m (ap suc l)),
            rw (s, members_of)
                (rw m
                  (subst (λ n. is_non_static_member n ≡ true) (as_derived-some (g e) d s) m, a)),
          )
          | inr m ↦ (rw (s, members_of) (rw m l), rw (s, members_of) (rw m a))
        ]
      ]

  -- If the elements with the tag of a member are derived types, get_composite_members returns as many
  -- members as get_num_composite_members counts, and every one is a non-static member.
  pub get_composite_members_lem :
      (c : CompositeType)
      → MembersDerived c.elements
      → (length (get_composite_members g c) ≡ get_num_composite_members g c)
        × All (λ d. is_non_static_member (derived d) ≡ true) (get_composite_members g c)
  unfolding get_composite_members get_num_composite_members
  get_composite_members_lem c k = members_of-lengths c.elements k
