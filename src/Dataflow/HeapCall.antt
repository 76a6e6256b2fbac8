-- ===== src/Dataflow/HeapCall.antt =====
-- The paths of type_for_heap_call of lib/type/DataflowAnalysis.cpp.
use llvm_dimeta.Base.{
  Bool-cases, Option-cases, All, All-append, All-map, ℕ, ◌≡◌, subst, ◌⊎◌, inl, inr, true, false,
  none, some, some-injective, List, [], ◌∷◌, ◌++◌,
}
use llvm_dimeta.Ir.{ValueId, Ir}
use llvm_dimeta.ValuePath.{ValuePath, value}
use llvm_dimeta.DefUse.{traverse_custom}
use llvm_dimeta.Dataflow.{
  is_target, malloc_anchor_matcher, forward_search, backtrack_from, is_backtracked, is_store_to,
  collect_anchors, type_for_heap_call,
}
use llvm_dimeta.Dataflow.Anchors.{
  is_anchor, EndsIn, Forward, Backward, anchors-EndsIn, backtrack_from-EndsIn,
}

module _ (ir : Ir) (c : ValueId) where
  -- An anchor of the call
  abbrev pub Anchor : ValuePath → Type 0
  Anchor = EndsIn ir (Forward ir (forward_search ir) c) (is_anchor ir)

  -- A backward path from an anchor, which is a store to something else than the call or a memory
  -- intrinsic, to a target
  pub record Backtracked (p : ValuePath) : Type 0 where
    pub anchor : ValuePath
    pub from : ValueId
    pub anchored : Anchor anchor
    pub ends : value anchor ≡ some from
    pub searched : is_backtracked ir (ir.value from) ≡ true
    pub elsewhere : is_store_to ir c (ir.value from) ≡ false
    pub target : EndsIn ir (Backward ir from) (λ q. is_target) p

  -- An anchor that no backward search starts from: a return or a call
  abbrev pub Final : ValuePath → Type 0
  Final p = Anchor p × (v : ValueId) × (value p ≡ some v) × (is_backtracked ir (ir.value v) ≡ false)

  abbrev pub HeapPath : ValuePath → Type 0
  HeapPath p = Final p ⊎ Backtracked p

  collect_anchors-HeapPath :
      (fuel : ℕ) (anchors types_path paths r : List ValuePath)
      → All Anchor anchors
      → All Backtracked types_path
      → All HeapPath paths
      → collect_anchors ir fuel c anchors types_path paths ≡ some r
      → All HeapPath r
  unfolding collect_anchors
  collect_anchors-HeapPath fuel [] types_path paths r ka kt kp e =
      subst (All HeapPath) (some-injective paths r e) kp
  collect_anchors-HeapPath fuel (a ∷ rest) types_path paths r (k, ka) kt kp e =
      let (chain, v, ends, anchored) = k in
      elim (Bool-cases (is_store_to ir c (ir.value v))) [
        | inl own ↦
            collect_anchors-HeapPath fuel rest types_path paths r ka kt kp
              (rw own at (rw (ends, collect_anchors) at e))
        | inr other ↦ elim (Bool-cases (is_backtracked ir (ir.value v))) [
          | inr final ↦
              collect_anchors-HeapPath fuel rest types_path (paths ++ a ∷ []) r ka kt
                (All-append HeapPath paths (a ∷ []) kp (inl (k, v, ends, final), tt))
                (rw (other, final) at (rw (ends, collect_anchors) at e))
          | inl searched ↦ elim (Option-cases (backtrack_from ir fuel v types_path)) [
            | inl over ↦
                let n : none ≡ some r =
                  rw (over) at (rw (other, searched) at (rw (ends, collect_anchors) at e)) in
                cc
            | inr (found, back) ↦
                let kf =
                  backtrack_from-EndsIn ir fuel v Backtracked types_path found
                    (λ p h. record {
                      anchor = a;
                      from = v;
                      anchored = k;
                      ends = ends;
                      searched = searched;
                      elsewhere = other;
                      target = h;
                    })
                    kt back in
                collect_anchors-HeapPath fuel rest found (paths ++ found) r ka kf
                  (All-append HeapPath paths found kp
                    (All-map Backtracked HeapPath (λ p h. inr h) found kf))
                  (rw (back) at (rw (other, searched) at (rw (ends, collect_anchors) at e)))
          ]
        ]
      ]

  -- Every path of type_for_heap_call is an anchor of the call that is a return or a call, or a backward
  -- path from an anchor, which is a memory intrinsic or a store whose pointer is not the call, to an
  -- alloca, an argument, a global variable or a call.
  pub type_for_heap_call-HeapPath :
      (fuel : ℕ) (paths : List ValuePath)
      → type_for_heap_call ir fuel c ≡ some paths
      → All HeapPath paths
  unfolding type_for_heap_call
  type_for_heap_call-HeapPath fuel paths e =
      elim (Option-cases
        (traverse_custom (malloc_anchor_matcher ir) (λ p. true) (forward_search ir) fuel c [])) [
          | inl over ↦ let n : none ≡ some paths = rw (over, type_for_heap_call) at e in cc
          | inr (anchors, found) ↦
              collect_anchors-HeapPath fuel anchors [] [] paths
                (anchors-EndsIn ir (forward_search ir) fuel c anchors found) tt tt
                (rw (found, type_for_heap_call) at e)
        ]
