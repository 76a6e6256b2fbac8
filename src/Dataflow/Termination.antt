-- ===== src/Dataflow/Termination.antt =====
-- The searches of lib/type/DataflowAnalysis.cpp end on a finite graph of values.

use llvm_dimeta.Base.{
  Bool-cases, Option-cases, length, All, All-contains, ℕ, ◌≤◌, ◌<◌, ◌≡◌, refl, sym, subst, ◌∙◌, inl,
  inr, true, none, some, some-injective, List, [], ◌∷◌, ◌++◌,
}
use llvm_dimeta.Ir.{ValueId, Ir}
use llvm_dimeta.ValuePath.{ValuePath, value, extend_lem}
use llvm_dimeta.DefUse.Sound.{begins, extends}
use llvm_dimeta.DefUse.Cost.{fresh_cost}
use llvm_dimeta.DefUse.Termination.{traverse_custom_returns}
use llvm_dimeta.Dataflow.{
  as_store, malloc_anchor_matcher, malloc_target_matcher, backtrack_operands,
  malloc_backtrack_search, forward_search, backtrack_from, is_backtracked, is_store_to,
  collect_anchors, type_for_heap_call,
}
use llvm_dimeta.Dataflow.Anchors.{is_anchor, EndsIn, Forward, anchors-EndsIn}

-- There are `size` values, and none has more than `degree` users or operands.
abbrev Small : ℕ → ℕ → List ValueId → Type 0
Small size degree vs = All (λ v. v < size) vs × (length vs ≤ degree)

pub record IsFiniteIr (ir : Ir) (size degree : ℕ) : Type 0 where
  pub users : (v : ValueId) → Small size degree (ir.users v)
  pub operands :
      (v : ValueId) (vs : List ValueId)
      → backtrack_operands ir (ir.value v) ≡ some vs
      → Small size degree vs

module _ (ir : Ir) (size degree : ℕ) (finite : IsFiniteIr ir size degree) where
  forward_search-Small :
      (p : ValuePath) (vs : List ValueId) → forward_search ir p ≡ some vs → Small size degree vs
  unfolding forward_search
  forward_search-Small p vs e = elim (Option-cases (value p)) [
    | inl no_value ↦ let n : none ≡ some vs = rw (no_value, forward_search) at e in cc
    | inr (v, ends) ↦ elim (Option-cases (as_store (ir.value v))) [
      | inl other ↦
          subst (Small size degree)
            (some-injective _ vs (rw other at (rw (ends, forward_search) at e))) (finite.users v)
      | inr (pointer, stores) ↦
          subst (Small size degree)
            (some-injective _ vs (rw stores at (rw (ends, forward_search) at e)))
            (finite.users pointer)
    ]
  ]

  malloc_backtrack_search-Small :
      (p : ValuePath) (vs : List ValueId)
      → malloc_backtrack_search ir p ≡ some vs
      → Small size degree vs
  unfolding malloc_backtrack_search
  malloc_backtrack_search-Small p vs e = elim (Option-cases (value p)) [
    | inl no_value ↦ let n : none ≡ some vs = rw (no_value, malloc_backtrack_search) at e in cc
    | inr (v, ends) ↦ finite.operands v vs (rw (ends, malloc_backtrack_search) at e)
  ]

  -- A backward search from a value returns with fuel for all the values.
  pub backtrack_from_returns :
      (fuel : ℕ) (v : ValueId) (found : List ValuePath)
      → v < size
      → fresh_cost degree size < fuel
      → (r : List ValuePath) × (backtrack_from ir fuel v found ≡ some r)
  unfolding backtrack_from
  backtrack_from_returns fuel v found i f =
      traverse_custom_returns (malloc_target_matcher ir) (λ p. true) (malloc_backtrack_search ir)
        size degree malloc_backtrack_search-Small fuel v found i f

  Forward-below :
      (c : ValueId) (p : ValuePath) (v : ValueId)
      → c < size
      → Forward ir (forward_search ir) c p
      → value p ≡ some v
      → v < size
  unfolding value
  Forward-below c p v i begins e = subst (λ x. x < size) (some-injective c v e) i
  Forward-below c p v i (extends q vs u chain searched found member) e =
      subst (λ x. x < size) (some-injective u v (sym (extend_lem q u).0 ∙ e))
        (All-contains (λ x. x < size) vs u (forward_search-Small q vs found).0 member)

  collect_anchors_returns :
      (fuel : ℕ) (c : ValueId) (anchors types_path paths : List ValuePath)
      → c < size
      → fresh_cost degree size < fuel
      → All (EndsIn ir (Forward ir (forward_search ir) c) (is_anchor ir)) anchors
      → (r : List ValuePath) × (collect_anchors ir fuel c anchors types_path paths ≡ some r)
  unfolding collect_anchors
  collect_anchors_returns fuel c [] types_path paths i f k = (paths, refl)
  collect_anchors_returns fuel c (a ∷ rest) types_path paths i f ((chain, v, ends, anchored), k) =
      elim (Bool-cases (is_store_to ir c (ir.value v))) [
        | inl own ↦
            let (r, e) = collect_anchors_returns fuel c rest types_path paths i f k in
            (r, rw (ends, collect_anchors) (rw own e))
        | inr other ↦ elim (Bool-cases (is_backtracked ir (ir.value v))) [
          | inr final ↦
              let (r, e) = collect_anchors_returns fuel c rest types_path (paths ++ a ∷ []) i f k in
              (r, rw (ends, collect_anchors) (rw (other, final) e))
          | inl searched ↦
              let (found, back) =
                backtrack_from_returns fuel v types_path (Forward-below c a v i chain ends) f in
              let (r, e) = collect_anchors_returns fuel c rest found (paths ++ found) i f k in
              (r, rw (ends, collect_anchors) (rw (other, searched) (rw back e)))
        ]
      ]

  -- On a finite graph of values type_for_heap_call returns, with fuel for all the values.
  pub type_for_heap_call_returns :
      (fuel : ℕ) (c : ValueId)
      → c < size
      → fresh_cost degree size < fuel
      → (paths : List ValuePath) × (type_for_heap_call ir fuel c ≡ some paths)
  unfolding type_for_heap_call
  type_for_heap_call_returns fuel c i f =
      let (anchors, found) =
        traverse_custom_returns (malloc_anchor_matcher ir) (λ p. true) (forward_search ir) size
          degree forward_search-Small fuel c [] i f in
      let (paths, e) =
        collect_anchors_returns fuel c anchors [] [] i f
          (anchors-EndsIn ir (forward_search ir) fuel c anchors found) in
      (paths, rw (found, type_for_heap_call) e)
