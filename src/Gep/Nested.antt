-- ===== src/Gep/Nested.antt =====
-- The element that a list of indices of a getelementptr selects in nested structs, in lib/type/GEP.cpp.
use llvm_dimeta.Base.{
  ◌==◌, if◌then◌else◌, Option-cases, length, get_elem?, Outcome, done, ◌>>=◌, >>=_congr, ℕ, ◌≡◌,
  refl, ap, ◌∙◌, inl, inr, Bool, true, false, not, ◌&&◌, some, List, [], ◌∷◌, arith,
}
use llvm_dimeta.Metadata.{
  NodeId, DerivedType, CompositeType, composite, Metadata, as_derived, as_composite, Ptr,
}
use llvm_dimeta.DiUtil.{is_array, is_struct_or_class}
use llvm_dimeta.Gep.{GepIndexToType, find_non_derived_type_unless_ptr}
use llvm_dimeta.Gep.Iterate.{
  Round, returns, recurses, goes_on, enter_member, round, iterate_gep_index,
}
use llvm_dimeta.Gep.Select.{IsPlain, round-plain}

module _ (g : Metadata) (chain : ℕ) where
  -- The index is that of a member of a plain struct, whose base type is `m` under derived types that are
  -- no pointers.
  pub record FieldAt (c : CompositeType) (i : ℕ) (n m : NodeId) : Type 0 where
    pub is_plain : IsPlain g c
    pub element : get_elem? c.elements i ≡ some n
    pub member : DerivedType
    pub is_member : as_derived (g n) ≡ some member
    pub base : find_non_derived_type_unless_ptr g chain member.base_type ≡ done (some m)

  -- The indices lead from a composite through nested plain structs and classes to a member and its type:
  -- the type is that of the member for the last index, and the element type of an array for an array that
  -- is indexed further.
  pub data Follows : CompositeType → List ℕ → Ptr → NodeId → Type 0 where
    last :
        {c : CompositeType} {i : ℕ} {n m : NodeId} → FieldAt c i n m → Follows c (i ∷ []) (some m) n
    in_struct :
        {c : CompositeType} {i j : ℕ} {is : List ℕ} {n m : NodeId} (inner : CompositeType) {t : Ptr}
        {k : NodeId}
        → FieldAt c i n m
        → as_composite (g m) ≡ some inner
        → is_struct_or_class (composite inner) ≡ true
        → Follows inner (j ∷ is) t k
        → Follows c (i ∷ j ∷ is) t k
    in_array :
        {c : CompositeType} {i j : ℕ} {is : List ℕ} {n m : NodeId} (array_type : CompositeType)
        → FieldAt c i n m
        → as_composite (g m) ≡ some array_type
        → is_struct_or_class (composite array_type) ≡ false
        → is_array (composite array_type) ≡ true
        → Follows c (i ∷ j ∷ is) array_type.base_type n

  last_index : {A : Type 0} (b : Bool) (x y : A) → (if b && false then x else y) ≡ y
  last_index true x y = refl
  last_index false x y = refl

  more_indices : (j : ℕ) (is : List ℕ) → not (length (j ∷ is) == 0) ≡ true
  more_indices j is = ground arith

  enter_last :
      (n m : NodeId) (d : DerivedType)
      → find_non_derived_type_unless_ptr g chain d.base_type ≡ done (some m)
      → enter_member g chain n d false
        ≡ done (returns (record { type = some (some m); member = some n }))
  unfolding enter_member
  enter_last n m d e = elim (Option-cases (as_composite (g m))) [
    | inl o ↦ rw (e, o, enter_member) refl
    | inr (c, o) ↦
        rw
          (
            e,
            o,
            enter_member,
            last_index (is_struct_or_class (composite c)) _ _,
            last_index (is_array (composite c)) _ _,
          )
          refl
  ]

  round_at :
      (c : CompositeType) (i : ℕ) (n m : NodeId) (has_next : Bool) (f : FieldAt c i n m)
      → round g chain c i has_next ≡ enter_member g chain n f.member has_next
  round_at c i n m has_next f =
      rw (round-plain g chain c i has_next f.is_plain, f.element, f.is_member)

  -- What iterate_gep_index makes of a round
  abbrev after : CompositeType → List ℕ → Round g → Outcome GepIndexToType
  after c is (returns t) = done t
  after c is (recurses c') = iterate_gep_index g chain c' is
  after c is goes_on = iterate_gep_index g chain c is

  same_after :
      (c : CompositeType) (is : List ℕ) (r : Round g)
      → elim r [
        | returns t ↦ done t
        | recurses c' ↦ iterate_gep_index g chain c' is
        | goes_on ↦ iterate_gep_index g chain c is
      ]
        ≡ after c is r
  same_after c is (returns t) = refl
  same_after c is (recurses c') = refl
  same_after c is goes_on = refl

  one_round :
      (c : CompositeType) (i : ℕ) (is : List ℕ) (has_next : Bool) (r : Round g)
      → not (length is == 0) ≡ has_next
      → round g chain c i has_next ≡ done r
      → iterate_gep_index g chain c (i ∷ is) ≡ after c is r
  unfolding iterate_gep_index
  one_round c i is has_next r l e =
      >>=_congr (round g chain c i (not (length is == 0))) _ (after c is) (same_after c is)
      ∙ ap (λ (b : Bool). round g chain c i b >>= after c is) l
      ∙ ap (λ (o : Outcome (Round g)). o >>= after c is) e

  enter_next :
      (n m : NodeId) (d : DerivedType) (c : CompositeType)
      → find_non_derived_type_unless_ptr g chain d.base_type ≡ done (some m)
      → as_composite (g m) ≡ some c
      → is_struct_or_class (composite c) ≡ true
      → enter_member g chain n d true ≡ done (recurses c)
  unfolding enter_member
  enter_next n m d c e o s = rw (e, o, s, enter_member) refl

  enter_array :
      (n m : NodeId) (d : DerivedType) (c : CompositeType)
      → find_non_derived_type_unless_ptr g chain d.base_type ≡ done (some m)
      → as_composite (g m) ≡ some c
      → is_struct_or_class (composite c) ≡ false
      → is_array (composite c) ≡ true
      → enter_member g chain n d true
        ≡ done (returns (record { type = some c.base_type; member = some n }))
  unfolding enter_member
  enter_array n m d c e o s r = rw (e, o, s, r, enter_member) refl

  -- If the indices lead from the composite to a member and its type, through nested plain structs and
  -- classes and for the last index or into an array, iterate_gep_index returns these.
  pub iterate_gep_index-Follows :
      (c : CompositeType) (is : List ℕ) (t : Ptr) (n : NodeId)
      → Follows c is t n
      → iterate_gep_index g chain c is ≡ done (record { type = some t; member = some n })
  iterate_gep_index-Follows c [] t n h = elim h [ ]
  iterate_gep_index-Follows c (i ∷ []) t n (last {m = m} f) =
      one_round c i [] false _ refl (round_at c i n m false f ∙ enter_last n m f.member f.base)
  iterate_gep_index-Follows c (i ∷ j ∷ is) t n (in_struct {n = a} {m = m} inner f o s r) =
      one_round c i (j ∷ is) true (recurses inner) (more_indices j is)
        (round_at c i a m true f ∙ enter_next a m f.member inner f.base o s)
      ∙ iterate_gep_index-Follows inner (j ∷ is) t n r
  iterate_gep_index-Follows c (i ∷ j ∷ is) t n (in_array {m = m} a f o s r) =
      one_round c i (j ∷ is) true _ (more_indices j is)
        (round_at c i n m true f ∙ enter_array n m f.member a f.base o s r)
