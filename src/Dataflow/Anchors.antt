-- ===== src/Dataflow/Anchors.antt =====
-- What the searches of lib/type/DataflowAnalysis.cpp record: the matchers MallocAnchorMatcher and
-- MallocTargetMatcher.
use llvm_dimeta.Base.{
  ◌==◌, if◌then◌else◌, Bool-cases, Option-cases, any_of, All, All-append, ℕ, ◌≡◌, refl, sym, subst,
  ◌⊎◌, inl, inr, Bool, true, false, not, ◌&&◌, Option, none, some, List, [], ◌∷◌, ◌++◌,
}
use llvm_dimeta.Ir.{ValueId, Value, store, gep_inst, call, ret, Ir}
use llvm_dimeta.ValuePath.{ValuePath, only_start, value, start_value}
use llvm_dimeta.DefUse.{traverse_custom, users_of, traverse}
use llvm_dimeta.DefUse.Sound.{Chained, traverse_custom-keeps}
use llvm_dimeta.Dataflow.{
  is_intrinsic, is_mem_intrinsic, is_target, match_anchor, malloc_anchor_matcher, match_target,
  malloc_target_matcher, malloc_backtrack_search, backtrack_from, path_from_instruction,
  path_from_value,
}

module _ (ir : Ir) where
  -- An anchor: a return, a memory intrinsic, a call that the search did not start from, or a store whose
  -- pointer is neither the start of the path nor used by a memory intrinsic.
  abbrev pub is_anchor : ValuePath → Value → Bool
  is_anchor p (ret s) = true
  is_anchor p (store s) =
      not (elim (start_value p) [ none ↦ false | some v ↦ s.pointer == v ])
      && not (any_of (λ u. is_mem_intrinsic (ir.value u)) (ir.users s.pointer))
  is_anchor p (call b c) =
      if is_intrinsic (call b c) then is_mem_intrinsic (call b c) else not (only_start p)
  is_anchor p v = false

  match_anchor-adds :
      (p : ValuePath) (v : Value) (anchors : List ValuePath)
      → ((match_anchor ir p v anchors).0 ≡ anchors)
        ⊎ (((match_anchor ir p v anchors).0 ≡ anchors ++ p ∷ []) × (is_anchor p v ≡ true))
  unfolding match_anchor
  match_anchor-adds p (ret s) anchors = inr (refl, refl)
  match_anchor-adds p (store s) anchors =
      elim (Bool-cases (elim (start_value p) [ none ↦ false | some v ↦ s.pointer == v ])) [
        | inl own ↦ inl (rw (own, match_anchor))
        | inr other ↦
            elim (Bool-cases (any_of (λ u. is_mem_intrinsic (ir.value u)) (ir.users s.pointer))) [
              | inl copied ↦ inl (rw (other, match_anchor) (rw copied))
              | inr plain ↦
                  inr (rw (other, match_anchor) (rw plain), rw (other, is_anchor) (rw plain))
            ]
      ]
  match_anchor-adds p (call b c) anchors = elim (Bool-cases (is_intrinsic (call b c))) [
    | inl i ↦ elim (Bool-cases (is_mem_intrinsic (call b c))) [
      | inl m ↦ inr (rw (i, match_anchor) (rw m), rw (i, is_anchor) m)
      | inr m ↦ inl (rw (i, match_anchor) (rw m))
    ]
    | inr i ↦ elim (Bool-cases (only_start p)) [
      | inl o ↦ inl (rw (i, match_anchor) (rw o))
      | inr o ↦ inr (rw (i, match_anchor) (rw o), rw (i, is_anchor) (rw o))
    ]
  ]
  match_anchor-adds p (gep_inst op) anchors = inl refl
  match_anchor-adds p v anchors = inl refl

  match_target-adds :
      (p : ValuePath) (v : Value) (found : List ValuePath)
      → ((match_target ir p v found).0 ≡ found)
        ⊎ (((match_target ir p v found).0 ≡ found ++ p ∷ []) × (is_target v ≡ true))
  unfolding match_target
  match_target-adds p v found = elim (Bool-cases (is_intrinsic v)) [
    | inl i ↦ inl (rw (i, match_target))
    | inr i ↦ elim (Bool-cases (is_target v)) [
      | inl t ↦ inr (rw (i, match_target) (rw t), t)
      | inr t ↦ inl (rw (i, match_target) (rw t))
    ]
  ]

  -- A path along a search, whose last value passes a test
  abbrev pub EndsIn : (ValuePath → Type 0) → (ValuePath → Value → Bool) → ValuePath → Type 0
  EndsIn chained test p =
      chained p × (v : ValueId) × (value p ≡ some v) × (test p (ir.value v) ≡ true)

  -- A matcher that adds only paths that pass the test keeps what its list holds.
  adds-EndsIn :
      (chained : ValuePath → Type 0) (test : ValuePath → Value → Bool) (p : ValuePath) (v : ValueId)
      (old new : List ValuePath)
      → chained p
      → value p ≡ some v
      → ((new ≡ old) ⊎ ((new ≡ old ++ p ∷ []) × (test p (ir.value v) ≡ true)))
      → All (EndsIn chained test) old
      → All (EndsIn chained test) new
  adds-EndsIn chained test p v old new c e (inl same) k =
      subst (All (EndsIn chained test)) (sym same) k
  adds-EndsIn chained test p v old new c e (inr (more, t)) k =
      subst (All (EndsIn chained test)) (sym more)
        (All-append (EndsIn chained test) old (p ∷ []) k ((c, v, e, t), tt))

  -- The chains of a search for anchors, and those of the backward search
  abbrev pub Forward : (ValuePath → Option (List ValueId)) → ValueId → ValuePath → Type 0
  Forward search start = Chained (malloc_anchor_matcher ir) (λ p. true) search start

  abbrev pub Backward : ValueId → ValuePath → Type 0
  Backward start = Chained (malloc_target_matcher ir) (λ p. true) (malloc_backtrack_search ir) start

  pub anchors-EndsIn :
      (search : ValuePath → Option (List ValueId)) (fuel : ℕ) (c : ValueId)
      (anchors : List ValuePath)
      → traverse_custom (malloc_anchor_matcher ir) (λ p. true) search fuel c [] ≡ some anchors
      → All (EndsIn (Forward search c) is_anchor) anchors
  unfolding malloc_anchor_matcher
  anchors-EndsIn search fuel c anchors e =
      traverse_custom-keeps (malloc_anchor_matcher ir) (λ p. true) search c
        (All (EndsIn (Forward search c) is_anchor))
        (λ p m chain k. elim (Option-cases (value p)) [
          | inl no_value ↦ rw (no_value, malloc_anchor_matcher) k
          | inr (v, ends) ↦
              rw (ends, malloc_anchor_matcher)
                (adds-EndsIn (Forward search c) is_anchor p v m _ chain ends
                  (match_anchor-adds p (ir.value v) m) k)
        ])
        fuel [] anchors tt e

  -- Every path that path_from_alloca or path_from_instruction returns is a chain of uses from the
  -- instruction to a return, a memory intrinsic, another call, or a store whose pointer is neither the
  -- instruction nor used by a memory intrinsic.
  pub path_from_instruction-EndsIn :
      (fuel : ℕ) (v : ValueId) (paths : List ValuePath)
      → path_from_instruction ir fuel v ≡ some paths
      → All (EndsIn (Forward (users_of ir) v) is_anchor) paths
  unfolding path_from_instruction traverse
  path_from_instruction-EndsIn fuel v paths e = anchors-EndsIn (users_of ir) fuel v paths e

  -- Every path that the backward search from a value adds is a chain of operands from the value to an
  -- alloca, an argument, a global variable or a call.
  pub backtrack_from-EndsIn :
      (fuel : ℕ) (v : ValueId) (P : ValuePath → Type 0) (old found : List ValuePath)
      → ((p : ValuePath) → EndsIn (Backward v) (λ q. is_target) p → P p)
      → All P old
      → backtrack_from ir fuel v old ≡ some found
      → All P found
  unfolding malloc_target_matcher backtrack_from
  backtrack_from-EndsIn fuel start P old found weaken k e =
      traverse_custom-keeps (malloc_target_matcher ir) (λ p. true) (malloc_backtrack_search ir)
        start (All P)
        (λ p m chain kept. elim (Option-cases (value p)) [
          | inl no_value ↦ rw (no_value, malloc_target_matcher) kept
          | inr (v, ends) ↦
              rw (ends, malloc_target_matcher)
                (elim (match_target-adds p (ir.value v) m) [
                  | inl same ↦ subst (All P) (sym same) kept
                  | inr (more, t) ↦
                      subst (All P) (sym more)
                        (All-append P m (p ∷ []) kept (weaken p (chain, v, ends, t), tt))
                ])
        ])
        fuel old found k e

  -- Every path that path_from_value returns is a chain of operands from the value to an alloca, an
  -- argument, a global variable or a call.
  pub path_from_value-EndsIn :
      (fuel : ℕ) (v : ValueId) (paths : List ValuePath)
      → path_from_value ir fuel v ≡ some paths
      → All (EndsIn (Backward v) (λ q. is_target)) paths
  unfolding path_from_value
  path_from_value-EndsIn fuel v paths e =
      backtrack_from-EndsIn fuel v (EndsIn (Backward v) (λ q. is_target)) [] paths (λ p h. h) tt e
