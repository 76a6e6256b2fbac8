-- ===== src/SourceLoc.antt =====
-- lib/type/SourceLocType.cpp: the source location of an allocation, and its type with the qualifiers
-- reset.
pub mod Shape
pub mod Located
pub mod ReadBack
use llvm_dimeta.Base.{
  ltb, if◌then◌else◌, count_if, Outcome, done, ◌>>=◌, ◌>>◌, deref, ℕ, ◌^◌, String, Bool, true,
  false, not, ◌&&◌, Option, none, some, List, [], ◌∷◌, map,
}
use llvm_dimeta.Metadata.{
  Variable, DiNode, derived, local_variable, global_variable, Metadata, as_derived, Ptr,
}
use llvm_dimeta.Ir.{DebugLoc}
use llvm_dimeta.DiUtil.{is_member}
use llvm_dimeta.Dataflow.Fortran.{is_non_negative, IndexDim}
use llvm_dimeta.Calls.{DimetaData}
use llvm_dimeta.QualifiedType.{
  Qualifier, pointer, Qualification, QualifiedType, SourceLocation, LocatedType, qualification,
  with_qualification,
}

-- get_parent_function_name
unfoldable pub get_parent_function_name : DebugLoc → String
get_parent_function_name loc = elim loc.function [ none ↦ "" | some f ↦ f.name ]

-- The lambda make_source_loc
unfoldable pub make_source_loc : Variable → SourceLocation
make_source_loc v = record {
  file = v.file;
  function = elim v.scope_name [ none ↦ "" | some s ↦ s ];
  line = v.line;
}

abbrev pub as_variable : DiNode → Option Variable
as_variable (local_variable v) = some v
as_variable (global_variable v) = some v
as_variable _ = none

unfoldable pub location_for : Metadata → DimetaData → Option SourceLocation
unfolding get_parent_function_name make_source_loc
location_for g data_for = elim data_for.di_location [
  | some loc ↦
      some (record { file = loc.file; function = get_parent_function_name loc; line = loc.line })
  | none ↦ elim data_for.di_variable [
    | none ↦ none
    | some n ↦ elim (as_variable (g n)) [ none ↦ none | some v ↦ some (make_source_loc v) ]
  ]
]

abbrev pub is_pointer_qualifier : Qualifier → Bool
is_pointer_qualifier pointer = true
is_pointer_qualifier _ = false

-- The comparison of the number of pointers with an int, which is a 32-bit pattern
abbrev pub below_int : ℕ → ℕ → Bool
below_int n level = ltb level (2 ^ 31) && ltb n level

-- The lambda add_pointer of reset_pointer_qualifier
unfoldable pub add_pointer : ℕ → Qualification → Qualification
add_pointer ptr_level q =
    if below_int (count_if is_pointer_qualifier q.qual) ptr_level
    then record q { qual = pointer ∷ q.qual }
    else q

unfoldable pub reset_pointer_qualifier : ℕ → QualifiedType → QualifiedType
unfolding add_pointer
reset_pointer_qualifier ptr_level t = with_qualification t (add_pointer ptr_level (qualification t))

-- The comparison of the stable sort: negative indices come last.
unfoldable pub shape_less : IndexDim → IndexDim → Bool
shape_less lhs rhs =
    if not (is_non_negative lhs.position) && not (is_non_negative rhs.position)
    then false
    else if not (is_non_negative lhs.position)
    then false
    else if not (is_non_negative rhs.position)
    then true
    else ltb lhs.position rhs.position

-- std::stable_sort, as an insertion sort: an element goes before the first that is less than it.
unfoldable pub insert : IndexDim → List IndexDim → List IndexDim
unfolding shape_less
insert d [] = d ∷ []
insert d (e ∷ es) = if shape_less e d then e ∷ insert d es else d ∷ e ∷ es

unfoldable pub stable_sort : List IndexDim → List IndexDim
unfolding insert
stable_sort [] = []
stable_sort (d ∷ ds) = insert d (stable_sort ds)

-- The lambda add_shape
unfoldable pub add_shape : List IndexDim → Qualification → Qualification
add_shape ordered_shapes q = record q { array_size = map (λ d. d.dim) ordered_shapes }

unfoldable pub reset_shape_qualifier : List IndexDim → QualifiedType → QualifiedType
unfolding add_shape stable_sort
reset_shape_qualifier shapes t =
    with_qualification t (add_shape (stable_sort shapes) (qualification t))

-- The end of located_type_for: the qualifiers of the parsed type are reset.
unfoldable pub reset_qualifiers : DimetaData → QualifiedType → QualifiedType
unfolding reset_pointer_qualifier reset_shape_qualifier
reset_qualifiers data_for q =
    let q1 = reset_pointer_qualifier data_for.pointer_level q in
    elim data_for.shape_descriptor [ none ↦ q1 | some shapes ↦ reset_shape_qualifier shapes q1 ]

abbrev pub locate : SourceLocation → DimetaData → Option QualifiedType → Option LocatedType
locate loc data_for none = none
locate loc data_for (some q) = some (record { type = reset_qualifiers data_for q; location = loc })

module _ (g : Metadata) (make_dimetadata : Ptr → Outcome (Option QualifiedType)) where
  -- The type that is parsed: of a member its base type
  unfoldable pub parsed_type : Ptr → Outcome Ptr
  parsed_type entry = do
    t ← deref entry
    done (elim (as_derived (g t)) [
      | none ↦ entry
      | some d ↦ if is_member (derived d) then d.base_type else entry
    ])

  -- located_type_for of the data; lib/type/DIParser.cpp makes the type.
  unfoldable pub located_type_for : DimetaData → Outcome (Option LocatedType)
  unfolding location_for parsed_type reset_qualifiers
  located_type_for data_for = elim (location_for g data_for) [
    | none ↦ done none
    | some loc ↦ elim data_for.entry_type [
      | none ↦ done none
      | some entry ↦ do
        t ← parsed_type entry
        made ← make_dimetadata t
        done (locate loc data_for made)
    ]
  ]

  -- located_type_for of an alloca, a call or a global variable, given what type_for returns for it
  unfoldable pub get_located_type : Outcome (Option DimetaData) → Outcome (Option LocatedType)
  unfolding located_type_for
  get_located_type type_data = do
    found ← type_data
    elim found [ none ↦ done none | some d ↦ located_type_for d ]
