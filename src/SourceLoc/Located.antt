-- ===== src/SourceLoc/Located.antt =====
-- What located_type_for of lib/type/SourceLocType.cpp returns.
use llvm_dimeta.Calls.{DimetaData}
use llvm_dimeta.Dataflow.Fortran.{IndexDim}
use llvm_dimeta.Metadata.{Metadata, Ptr}
use llvm_dimeta.Base.{
  map, ◌⊎◌, [], ◌∷◌, ◌++◌, if◌then◌else◌, Option-cases, count_if, Outcome, done, done-injective,
  >>=-eq-done, ℕ, ◌^◌, ◌≤◌, ◌<◌, ◌≡◌, refl, subst, inl, inr, Option, none, some, some-injective,
  List, arith,
}
use llvm_dimeta.QualifiedType.{
  Qualifier, pointer, with_qualification, Qualification, QualifiedType, qualified_compound,
  qualified_fundamental, SourceLocation, LocatedType, qualification,
}
use llvm_dimeta.SourceLoc.Shape.{IsSorted, with_key, stable_sort-IsSorted, stable_sort-with_key}
use llvm_dimeta.SourceLoc.{
  location_for, is_pointer_qualifier, below_int, stable_sort, add_pointer, reset_pointer_qualifier,
  add_shape, reset_shape_qualifier, reset_qualifiers, locate, parsed_type, located_type_for,
}

abbrev pub pointers_of : Qualification → ℕ
pointers_of q = count_if is_pointer_qualifier q.qual

-- The type before its qualifiers are reset, `made`, and after: the compound or fundamental type is the
-- same, and so are the other fields of the qualification. At most one pointer is put in front, if the level,
-- which is a 32-bit int, exceeds the pointers that there are; the dimensions of a shape, in their order,
-- replace the sizes of the array.
pub record IsReset (d : DimetaData) (made type : QualifiedType) : Type 0 where
  pub pointers : List Qualifier
  pub sizes : List ℕ
  pub same :
      type
      ≡ with_qualification made (record (qualification made) {
        qual = pointers ++ (qualification made).qual;
        array_size = sizes;
      })
  pub none_added :
      (2 ^ 31 ≤ d.pointer_level) ⊎ (d.pointer_level ≤ pointers_of (qualification made))
      → pointers ≡ []
  pub one_added :
      d.pointer_level < 2 ^ 31
      → pointers_of (qualification made) < d.pointer_level
      → pointers ≡ pointer ∷ []
  pub no_shape : d.shape_descriptor ≡ none → sizes ≡ (qualification made).array_size
  pub shape :
      (shapes : List IndexDim)
      → d.shape_descriptor ≡ some shapes
      → (ordered : List IndexDim) × IsSorted ordered
        × ((k : ℕ) → with_key k ordered ≡ with_key k shapes)
        × (sizes ≡ map (λ s. s.dim) ordered)

-- The pointer that is put in front
abbrev added : ℕ → Qualification → List Qualifier
added level q = if below_int (pointers_of q) level then pointer ∷ [] else []

abbrev sizes_after : DimetaData → Qualification → List ℕ
sizes_after d q = elim d.shape_descriptor [
  | none ↦ q.array_size
  | some shapes ↦ map (λ s. s.dim) (stable_sort shapes)
]

add_pointer_lem :
    (level : ℕ) (q : Qualification)
    → add_pointer level q ≡ record q { qual = added level q ++ q.qual }
unfolding add_pointer
add_pointer_lem level q = ground arith

reset_qualifiers_lem :
    (d : DimetaData) (t : QualifiedType)
    → reset_qualifiers d t
      ≡ with_qualification t (record (qualification t) {
        qual = added d.pointer_level (qualification t) ++ (qualification t).qual;
        array_size = sizes_after d (qualification t);
      })
unfolding reset_qualifiers reset_pointer_qualifier reset_shape_qualifier add_shape
reset_qualifiers_lem d (qualified_compound c q) = elim (Option-cases d.shape_descriptor) [
  | inl n ↦ rw (n, reset_qualifiers, add_pointer_lem d.pointer_level q) refl
  | inr (shapes, s) ↦ rw (s, reset_qualifiers, add_pointer_lem d.pointer_level q) refl
]
reset_qualifiers_lem d (qualified_fundamental f q) = elim (Option-cases d.shape_descriptor) [
  | inl n ↦ rw (n, reset_qualifiers, add_pointer_lem d.pointer_level q) refl
  | inr (shapes, s) ↦ rw (s, reset_qualifiers, add_pointer_lem d.pointer_level q) refl
]

reset_qualifiers-IsReset : (d : DimetaData) (t : QualifiedType) → IsReset d t (reset_qualifiers d t)
reset_qualifiers-IsReset d t = record {
  pointers = added d.pointer_level (qualification t);
  sizes = sizes_after d (qualification t);
  same = reset_qualifiers_lem d t;
  none_added = λ h. elim h [ inl n ↦ ground arith | inr n ↦ ground arith ];
  one_added = λ h k. ground arith;
  no_shape = λ n. rw (n, sizes_after);
  shape = λ shapes s. (
    stable_sort shapes,
    stable_sort-IsSorted shapes,
    (λ k. stable_sort-with_key k shapes),
    rw (s, sizes_after),
  );
}

module _ (g : Metadata) (make_dimetadata : Ptr → Outcome (Option QualifiedType)) where
  -- The type of `r` was parsed from the entry type or, if that is a member, from its base type.
  pub record Located (d : DimetaData) (r : LocatedType) : Type 0 where
    pub location : location_for g d ≡ some r.location
    pub entry : Ptr
    pub entry_type : d.entry_type ≡ some entry
    pub parsed : Ptr
    pub parses : parsed_type g make_dimetadata entry ≡ done parsed
    pub made : QualifiedType
    pub makes : make_dimetadata parsed ≡ done (some made)
    pub resets : IsReset d made r.type

  from_made :
      (d : DimetaData) (r : LocatedType) (loc : SourceLocation)
      → location_for g d ≡ some loc
      → (entry : Ptr) → d.entry_type ≡ some entry
      → (parsed : Ptr) → parsed_type g make_dimetadata entry ≡ done parsed
      → (made : Option QualifiedType) → make_dimetadata parsed ≡ done made
      → locate loc d made ≡ some r
      → Located d r
  from_made d r loc l entry t parsed parses none makes e = let m : none ≡ some r = e in cc
  from_made d r loc l entry t parsed parses (some q) makes e =
      subst (Located d) (some-injective _ r e) (record {
        location = l;
        entry = entry;
        entry_type = t;
        parsed = parsed;
        parses = parses;
        made = q;
        makes = makes;
        resets = reset_qualifiers-IsReset d q;
      })

  -- The data that located_type_for returns have the location that location_for finds and the type that
  -- is parsed from the entry type, or from the base type of a member, but for its pointers and the sizes
  -- of its array. One pointer is put in front, if the pointer level is no negative int and exceeds the
  -- number of pointers, else none; the sizes are replaced, if there is a shape, by its extents, in the
  -- order of the dimensions' numbers.
  pub located_type_for-Located :
      (d : DimetaData) (r : LocatedType)
      → located_type_for g make_dimetadata d ≡ done (some r)
      → Located d r
  unfolding located_type_for
  located_type_for-Located d r e = elim (Option-cases (location_for g d)) [
    | inl n ↦ let m : none ≡ some r = done-injective _ _ (rw (n, located_type_for) at e) in cc
    | inr (loc, l) ↦ elim (Option-cases d.entry_type) [
      | inl n ↦
          let m : none ≡ some r = done-injective _ _ (rw n at (rw (l, located_type_for) at e)) in cc
      | inr (entry, t) ↦
          let e1 = rw t at (rw (l, located_type_for) at e) in
          let (parsed, parses, e2) = >>=-eq-done (parsed_type g make_dimetadata entry) _ e1 in
          let (made, makes, e3) = >>=-eq-done (make_dimetadata parsed) _ e2 in
          from_made d r loc l entry t parsed parses made makes (done-injective _ _ e3)
    ]
  ]
