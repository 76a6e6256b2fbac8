-- ===== src/Gep/Select.antt =====
-- The element that an index of a getelementptr selects among the elements of a composite, in
-- lib/type/GEP.cpp.
use llvm_dimeta.Base.{
  ltb, ◌==◌, if◌then◌else◌, lt→ltb, Option-cases, if_intro, if_split, length, get_elem?, drop, All,
  failed_assertion, done, fault, ◌>>=◌, index, ℕ, zero, suc, ◌<◌, ◌≡◌, refl, ap, subst, inl, inr,
  Bool, true, false, ◌&&◌, none, some, some-injective, List, [], ◌∷◌, arith,
}
use llvm_dimeta.Metadata.{
  NodeId, DerivedType, CompositeType, derived, Metadata, as_derived, is_static_member,
}
use llvm_dimeta.DiUtil.{is_inheritance}
use llvm_dimeta.Gep.{select_non_zero_element, is_ebo_inherited_composite, count_ebo}
use llvm_dimeta.Gep.Iterate.{skip_static, select_element, goes_on, enter_member, round}

module _ (g : Metadata) where
  -- A plain struct: each element is a derived type, and neither a static member nor a base class; the
  -- first two lie at different offsets.
  abbrev pub IsField : NodeId → Type 0
  IsField n =
      (d : DerivedType) × (as_derived (g n) ≡ some d)
      × (is_static_member d ≡ false)
      × (is_inheritance (derived d) ≡ false)

  abbrev pub Differ : List NodeId → Type 0
  Differ [] = Unit
  Differ (a ∷ []) = Unit
  Differ (a ∷ b ∷ rest) = select_non_zero_element g a b ≡ a

  pub record IsPlain (c : CompositeType) : Type 0 where
    pub fields : All IsField c.elements
    pub offsets : Differ c.elements

  count_ebo-plain : (es : List NodeId) → All IsField es → count_ebo g es ≡ done 0
  unfolding count_ebo is_ebo_inherited_composite
  count_ebo-plain [] h = refl
  count_ebo-plain (e ∷ es) h = ground (arith, count_ebo-plain es h.1)

  IsField-at :
      (es : List NodeId) (i : ℕ) (n : NodeId) → All IsField es → get_elem? es i ≡ some n → IsField n
  IsField-at [] i n h e = cc
  IsField-at (a ∷ es) zero n h e = subst IsField (some-injective a n e) h.0
  IsField-at (a ∷ es) (suc i) n h e = IsField-at es i n h.1 e

  in_range : (es : List NodeId) (i : ℕ) (n : NodeId) → get_elem? es i ≡ some n → i < length es
  in_range [] i n e = cc
  in_range (a ∷ es) zero n e = omega arith
  in_range (a ∷ es) (suc i) n e = omega (arith, in_range es i n e)

  -- Under index 0 the second element is looked at too.
  first_field :
      (es : List NodeId) (i : ℕ) (n : NodeId)
      → Differ es
      → get_elem? es i ≡ some n
      → (if i == 0 && ltb 1 (length es)
          then (index es 1 >>= λ e1. done (select_non_zero_element g n e1))
          else done n)
        ≡ done n
  first_field [] i n h e = cc
  first_field (a ∷ []) zero n h e = refl
  first_field (a ∷ b ∷ es) zero n h e =
      if_intro (λ r. r ≡ done n) (ltb 1 (length (a ∷ b ∷ es)))
        (rw (← some-injective a n e) (ap done h)) refl
  first_field (a ∷ es) (suc i) n h e = ground arith

  and_false : (b : Bool) → (b && false) ≡ true → ⊥
  and_false true x = cc
  and_false false x = cc

  select_element-plain :
      (c : CompositeType) (i : ℕ) (n : NodeId)
      → IsPlain c
      → get_elem? c.elements i ≡ some n
      → select_element g c i ≡ done (n, i)
  unfolding select_element
  select_element-plain c i n p e =
      rw
        (
          lt→ltb i (length c.elements) (in_range c.elements i n e),
          e,
          index,
          first_field c.elements i n p.offsets e,
          count_ebo-plain c.elements p.fields,
        )
        (if_split (λ r. r ≡ done (n, i)) (ltb 0 i && false) (λ x. absurd (and_false (ltb 0 i) x))
          (λ x. refl))

  skip_static-field :
      (n : NodeId) (rest : List NodeId) (i : ℕ) → IsField n → skip_static g n rest i ≡ done (n, i)
  unfolding skip_static
  skip_static-field n [] i f = ground arith
  skip_static-field n (e ∷ rest) i f = ground arith

  out_of_range : (es : List NodeId) (i : ℕ) → get_elem? es i ≡ none → ltb i (length es) ≡ false
  out_of_range [] i e = ground arith
  out_of_range (a ∷ es) zero e = cc
  out_of_range (a ∷ es) (suc i) e = ground (arith, out_of_range es i e)

  select_element-range :
      (c : CompositeType) (i : ℕ)
      → get_elem? c.elements i ≡ none
      → select_element g c i ≡ fault failed_assertion
  unfolding select_element
  select_element-range c i e = rw (out_of_range c.elements i e)

  -- In a plain struct the index i of a getelementptr selects the i-th element, and the rest of the
  -- round looks at that member; an index past the elements fails the assertion.
  pub round-plain :
      (chain : ℕ) (c : CompositeType) (i : ℕ) (has_next : Bool)
      → IsPlain c
      → round g chain c i has_next ≡ elim (get_elem? c.elements i) [
        | none ↦ fault failed_assertion
        | some n ↦ elim (as_derived (g n)) [
          | some d ↦ enter_member g chain n d has_next
          | none ↦ done goes_on
        ]
      ]
  unfolding round
  round-plain chain c i has_next p = elim (Option-cases (get_elem? c.elements i)) [
    | inl e ↦ rw (e, select_element-range c i e)
    | inr (n, e) ↦
        let f = IsField-at c.elements i n p.fields e in
        let stay =
          if_intro (λ r. r ≡ done (n, i)) (ltb i (length c.elements))
            (skip_static-field n (drop (suc i) c.elements) i f) refl in
        let enters : (elim (as_derived (g n)) [
          | some d ↦ enter_member g chain n d has_next
          | none ↦ done goes_on
        ])
            ≡ enter_member g chain n f.0 has_next =
          rw f.1 in
        rw (e, select_element-plain c i n p e, f.1) (rw stay enters)
  ]
