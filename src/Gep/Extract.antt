-- ===== src/Gep/Extract.antt =====
-- `extract_gep_dereferenced_type` of lib/type/GEP.cpp, with the return type of an inlined operator,
-- and `is_fortran_descriptor` of lib/type/DIFortranTypeExtractor.cpp, which it asks.

use llvm_dimeta.Base.{
  ◌==◌, if◌then◌else◌, has_value, length, get_or, failed_assertion, Outcome, done, fault, ◌>>=◌,
  deref, ℕ, Bool, true, false, not, ◌&&◌, ◌||◌, Option, none, some, List, [], ◌∷◌,
}
use llvm_dimeta.Metadata.{
  dw_tag_pointer_type, dw_tag_ptr_to_member_type, NodeId, DerivedType, DiNode, Metadata, get_tag,
  as_derived, as_composite, is_forward_decl, Ptr,
}
use llvm_dimeta.Ir.{
  ValueId, IrType, pointer_ty, integer_ty, array_ty, struct_ty, other_ty, IrTypes, no_types,
  and_type, DebugLoc, GepOperator, Ir, is_instruction,
}
use llvm_dimeta.Gep.{
  is_byte_indexing, is_first_non_zero_indexing, create, GepIndexToType, only_type,
  find_non_derived_type_unless, find_non_derived_type, composite_at,
}
use llvm_dimeta.Gep.Iterate.{resolve_gep_index_to_type}

abbrev pub is_pointer_ty : IrType → Bool
is_pointer_ty pointer_ty = true
is_pointer_ty _ = false

abbrev pub is_integer_ty : ℕ → IrType → Bool
is_integer_ty w (integer_ty v) = v == w
is_integer_ty w _ = false

abbrev pub is_array_ty : IrType → Bool
is_array_ty (array_ty n t) = true
is_array_ty _ = false

-- llvm::dyn_cast<llvm::ArrayType>
abbrev pub as_array_ty : IrType → Option (record { count : ℕ; element : IrType })
as_array_ty (array_ty n t) = some (record { count = n; element = t })
as_array_ty _ = none

abbrev pub to_types : IrTypes → List IrType
to_types no_types = []
to_types (and_type t ts) = t ∷ to_types ts

abbrev type_at : List IrType → ℕ → IrType
type_at ts i = get_or ts i other_ty

-- `[n x [3 x i64]]`, the dimensions: their number, if the type fits
abbrev pub dimensions : IrType → Option ℕ
dimensions t = elim (as_array_ty t) [
  | none ↦ none
  | some a ↦ elim (as_array_ty a.element) [
    | none ↦ none
    | some b ↦ if b.count == 3 && is_integer_ty 64 b.element then some a.count else none
  ]
]

-- `[n x i64]`, the addendum
abbrev pub addendum : IrType → Option ℕ
addendum t = elim (as_array_ty t) [
  | none ↦ none
  | some a ↦ if is_integer_ty 64 a.element then some a.count else none
]

-- The first seven elements: { ptr, i64, i32, i8, i8, i8, i8 }
abbrev pub is_descriptor_head : List IrType → Bool
is_descriptor_head ts =
    is_pointer_ty (type_at ts 0)
    && is_integer_ty 64 (type_at ts 1)
    && is_integer_ty 32 (type_at ts 2)
    && is_integer_ty 8 (type_at ts 3)
    && is_integer_ty 8 (type_at ts 4)
    && is_integer_ty 8 (type_at ts 5)
    && is_integer_ty 8 (type_at ts 6)

unfoldable pub is_fortran_descriptor : IrType → Bool
is_fortran_descriptor (struct_ty types) =
    let ts = to_types types in
    if not (is_descriptor_head ts)
    then false
    else if length ts == 9
    then is_pointer_ty (type_at ts 7) && has_value (addendum (type_at ts 8))
    else if length ts == 10
    then elim (dimensions (type_at ts 7)) [
      | none ↦ false
      | some n ↦ elim (addendum (type_at ts 9)) [
        | none ↦ false
        | some k ↦ is_pointer_ty (type_at ts 8) && n == k
      ]
    ]
    else false
is_fortran_descriptor _ = false

module _ (ir : Ir) (g : Metadata) where
  -- The debug location of the operator, or of the instruction that it points to, if it is inlined
  unfoldable pub try_resolve_inlined_debug_loc : ValueId → GepOperator → Option DebugLoc
  try_resolve_inlined_debug_loc v gep =
      let at =
        if is_instruction (ir.value v)
        then some v
        else if is_instruction (ir.value gep.pointer)
        then some gep.pointer
        else none in
      elim at [
        | none ↦ none
        | some i ↦ elim (ir.debug_loc i) [
          | none ↦ none
          | some loc ↦ if loc.is_inlined then some loc else none
        ]
      ]

  -- The lambda's test in remove_ref: a reference is removed, a pointer stays.
  abbrev pub is_kept_pointer : DiNode → Bool
  is_kept_pointer n = elim (as_derived n) [
    | none ↦ false
    | some d ↦ d.tag == dw_tag_pointer_type || d.tag == dw_tag_ptr_to_member_type
  ]

  unfoldable pub try_resolve_inlined_operator :
      ℕ → ValueId → GepOperator → Outcome (Option GepIndexToType)
  unfolding try_resolve_inlined_debug_loc find_non_derived_type_unless
  try_resolve_inlined_operator chain v gep = elim (try_resolve_inlined_debug_loc v gep) [
    | none ↦ done none
    | some loc ↦ elim loc.subprogram [
      | none ↦ fault failed_assertion
      | some sub ↦ elim sub.type_array [
        | none ↦ done none
        | some types ↦ elim types [
          | [] ↦ done none
          | result ∷ rest ↦ elim result [
            | none ↦ done none
            | some t ↦ do
              r ← find_non_derived_type_unless g chain is_kept_pointer (some t)
              done (some (only_type r))
          ]
        ]
      ]
    ]
  ]

  -- The tag that the base type of a derived root has, read through a pointer that may be null
  abbrev pub base_is_pointer : DerivedType → Outcome Bool
  base_is_pointer d = do b ← deref d.base_type; done (get_tag (g b) == dw_tag_pointer_type)

  -- From `Should skip GEP index?` on: the root ends in the composite `n`.
  unfoldable pub index_composite : ℕ → ℕ → GepOperator → NodeId → DiNode → Outcome GepIndexToType
  unfolding is_first_non_zero_indexing is_fortran_descriptor create resolve_gep_index_to_type
      is_byte_indexing
  index_composite chain walk gep n root = do
    first ← is_first_non_zero_indexing gep
    let single_index = length gep.indices == 1
    let skip_first =
        not first
        && not (single_index && not (is_fortran_descriptor gep.source_element_type))
        && not (is_byte_indexing gep)
    let array_like = not (is_byte_indexing gep) && not skip_first && single_index
    elim (as_derived root) [
      | none ↦ resolve_gep_index_to_type g chain walk n (create gep skip_first)
      | some d ↦
          if array_like && d.tag == dw_tag_pointer_type
          then done (only_type d.base_type)
          else resolve_gep_index_to_type g chain walk n (create gep skip_first)
    ]

  -- After the tests on the source element type: the type under the root is `base`.
  unfoldable pub index_root : ℕ → ℕ → ValueId → GepOperator → NodeId → Ptr → Outcome GepIndexToType
  unfolding is_byte_indexing index_composite try_resolve_inlined_operator
  index_root chain walk v gep root base = do
    over_pointer ← elim (as_derived (g root)) [ none ↦ done false | some d ↦ base_is_pointer d ]
    let under : Ptr = elim base [
      | none ↦ none
      | some b ↦ if has_value (as_composite (g b)) then some b else none
    ]
    if is_byte_indexing gep && (not (has_value under) || over_pointer)
        then done (only_type (some root))
        else elim under [
          | none ↦ fault failed_assertion
          | some n ↦ do
            c ← composite_at g n
            if is_forward_decl c
                then (do
                  r ← try_resolve_inlined_operator chain v gep
                  done (elim r [ none ↦ only_type (some root) | some t ↦ t ]))
                else index_composite chain walk gep n (g root)
        ]

  unfoldable pub extract_gep_dereferenced_type :
      ℕ → ℕ → ValueId → GepOperator → NodeId → Outcome GepIndexToType
  unfolding index_root try_resolve_inlined_operator find_non_derived_type_unless
  extract_gep_dereferenced_type chain walk v gep root = do
    base ← find_non_derived_type g chain (some root)
    let may_be_inlined_operator : Bool = elim base [
      | none ↦ false
      | some b ↦ elim (as_composite (g b)) [ none ↦ false | some c ↦ is_forward_decl c ]
    ]
    inlined ← try_resolve_inlined_operator chain v gep
    elim inlined [
      | some t ↦ done t
      | none ↦
          if is_pointer_ty gep.source_element_type && not may_be_inlined_operator
          then done (only_type (some root))
          else if is_array_ty gep.source_element_type
          then done (only_type (some root))
          else index_root chain walk v gep root base
    ]
