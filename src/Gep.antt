-- ===== src/Gep.antt =====
-- lib/type/GEP.cpp: the type that a getelementptr instruction or constant expression selects.
pub mod Peel
pub mod Select
pub mod Nested
pub mod Iterate
pub mod Extract
use llvm_dimeta.Base.{
  ltb, ◌==◌, if◌then◌else◌, has_value, length, drop, count_if, any_of, failed_assertion,
  out_of_bounds, Outcome, done, fault, out_of_fuel, ◌>>=◌, ◌>>◌, deref, index, ℕ, zero, suc, ◌^◌,
  Bool, false, not, ◌&&◌, Option, none, some, List, [], ◌∷◌,
}
use llvm_dimeta.Metadata.{
  NodeId, CompositeType, DiNode, basic, derived, composite, string_type, subroutine, Metadata,
  as_derived, as_composite, Ptr,
}
use llvm_dimeta.DiUtil.{is_pointer_like, is_non_static_member, is_inheritance}
use llvm_dimeta.Ir.{integer_ty, GepOperator}

-- The values of int64_t that are above zero, by their 64-bit patterns
abbrev pub is_positive64 : ℕ → Bool
is_positive64 i = ltb 0 i && ltb i (2 ^ 63)

unfoldable pub is_byte_indexing : GepOperator → Bool
is_byte_indexing gep = elim gep.source_element_type [ integer_ty w ↦ w == 8 | _ ↦ false ]

-- The first index is read without a test, since a getelementptr here has one.
unfoldable pub is_first_non_zero_indexing : GepOperator → Outcome Bool
is_first_non_zero_indexing gep = elim gep.indices [
  | [] ↦ fault out_of_bounds
  | i ∷ rest ↦ elim i [ some v ↦ done (is_positive64 v) | none ↦ done false ]
]

pub record GepIndices : Type 0 where
  pub indices_ : List ℕ
  pub skipped : Bool
  pub is_byte_access : Bool
  pub dynamic_access : Bool

-- The loop of GepIndices::create collects the constant indices after the first, if that is skipped.
unfoldable pub constant_indices : List (Option ℕ) → List ℕ
constant_indices [] = []
constant_indices (none ∷ is) = constant_indices is
constant_indices (some v ∷ is) = v ∷ constant_indices is

unfoldable pub create : GepOperator → Bool → GepIndices
unfolding constant_indices is_byte_indexing
create gep skip_first =
    let found = constant_indices (if skip_first then drop 1 gep.indices else gep.indices) in
    record {
      indices_ = found;
      skipped = skip_first;
      is_byte_access = is_byte_indexing gep;
      dynamic_access = length found == 0 && not (length gep.indices == 0);
    }

-- GepIndexToType of lib/type/GEP.h; `use_type` keeps its default false.
pub record GepIndexToType : Type 0 where
  pub type : Option Ptr
  pub member : Option NodeId

abbrev pub only_type : Ptr → GepIndexToType
only_type t = record { type = some t; member = none }

module _ (g : Metadata) where
  -- Of two elements at the same offset the second is taken: the first is an empty base class.
  unfoldable pub select_non_zero_element : NodeId → NodeId → NodeId
  select_non_zero_element element next_element = elim (as_derived (g element)) [
    | none ↦ element
    | some d ↦ elim (as_derived (g next_element)) [
      | none ↦ element
      | some d' ↦ if d.offset_in_bits == d'.offset_in_bits then next_element else element
    ]
  ]

  unfoldable pub find_non_derived_type_unless : ℕ → (DiNode → Bool) → Ptr → Outcome Ptr
  find_non_derived_type_unless zero unless t = out_of_fuel
  find_non_derived_type_unless (suc fuel) unless none = done none
  find_non_derived_type_unless (suc fuel) unless (some t) = elim (as_derived (g t)) [
    | none ↦ done (some t)
    | some d ↦
        let rest = find_non_derived_type_unless fuel unless d.base_type in
        if unless (g t) then done (some t) else rest
  ]

  abbrev pub find_non_derived_type_unless_ptr : ℕ → Ptr → Outcome Ptr
  find_non_derived_type_unless_ptr fuel = find_non_derived_type_unless fuel is_pointer_like

  abbrev pub find_non_derived_type : ℕ → Ptr → Outcome Ptr
  find_non_derived_type fuel = find_non_derived_type_unless fuel (λ n. false)

  -- An inherited composite with no non-static member of its own
  unfoldable pub is_ebo_inherited_composite : NodeId → Outcome Bool
  is_ebo_inherited_composite n = elim (as_derived (g n)) [
    | none ↦ done false
    | some d ↦ if not (is_inheritance (derived d)) then done false else (do
      b ← deref d.base_type
      done (elim (as_composite (g b)) [
        | none ↦ false
        | some c ↦ not (any_of (λ e. is_non_static_member (g e)) c.elements)
      ]))
  ]

  unfoldable pub count_ebo : List NodeId → Outcome ℕ
  unfolding is_ebo_inherited_composite
  count_ebo [] = done 0
  count_ebo (e ∷ es) = do
    b ← is_ebo_inherited_composite e
    k ← count_ebo es
    done (if b then suc k else k)

  -- A pointer of static type DICompositeType*
  abbrev pub composite_at : NodeId → Outcome CompositeType
  composite_at n = elim (as_composite (g n)) [ some c ↦ done c | none ↦ fault failed_assertion ]

  -- llvm::dyn_cast<DIType>: null for an element that is no type, such as a method
  abbrev pub as_type : NodeId → Ptr
  as_type n = elim (g n) [
    | basic b ↦ some n
    | derived d ↦ some n
    | composite c ↦ some n
    | string_type s k ↦ some n
    | subroutine ts ↦ some n
    | _ ↦ none
  ]

  -- The lambda select_next_member
  unfoldable pub select_next_member : ℕ → CompositeType → Outcome Ptr
  unfolding select_non_zero_element find_non_derived_type_unless
  select_next_member fuel c = do
    e0 ← index c.elements 0
    e ←
        (if ltb 1 (length c.elements)
          then (do e1 ← index c.elements 1; done (select_non_zero_element e0 e1))
          else done e0)
    find_non_derived_type_unless_ptr fuel (as_type e)

  -- A composite with one non-static member is skipped for the composite that the member holds. The
  -- fuel of a chain of base types is apart, `chain`.
  unfoldable pub skip_first_gep_access : ℕ → ℕ → NodeId → Outcome NodeId
  unfolding select_next_member
  skip_first_gep_access chain zero n = out_of_fuel
  skip_first_gep_access chain (suc fuel) n =
      let rest = skip_first_gep_access chain fuel in
      composite_at n >>= λ c.
      if not (count_if (λ e. is_non_static_member (g e)) c.elements == 1) then done n else (do
        next ← select_next_member chain c
        m ← deref next
        if has_value (as_composite (g m)) then rest m else done n)
