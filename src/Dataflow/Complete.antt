-- ===== src/Dataflow/Complete.antt =====
-- The backward search of lib/type/DataflowAnalysis.cpp misses no target.
use llvm_dimeta.Base.{
  if◌then◌else◌, ==_iff, Bool-cases, Option-cases, any_of, any_of-append, ℕ, ◌≡◌, refl, ◌∙◌, inl,
  inr, Bool, true, false, not, ◌||◌, none, some, List, [], ◌∷◌, arith,
}
use llvm_dimeta.Ir.{ValueId, Value, call, Ir}
use llvm_dimeta.ValuePath.{ValuePath, value}
use llvm_dimeta.DefUse.{continue, skip}
use llvm_dimeta.DefUse.Covered.{Reach, is_at}
use llvm_dimeta.DefUse.Complete.{Explores, traverse_custom-finds}
use llvm_dimeta.Dataflow.{
  is_intrinsic, is_memcpy, is_target, match_target, malloc_target_matcher, backtrack_operands,
  malloc_backtrack_search, backtrack_from, path_from_value,
}

module _ (ir : Ir) where
  -- The operands that the search goes back to
  abbrev pub operands : ValueId → List ValueId
  operands v = elim (backtrack_operands ir (ir.value v)) [ none ↦ [] | some vs ↦ vs ]

  -- The search does not go back beyond a target, nor beyond an intrinsic other than memcpy.
  abbrev pub halts : ValueId → Bool
  halts v =
      if is_intrinsic (ir.value v) then not (is_memcpy (ir.value v)) else is_target (ir.value v)

  -- A target has a path that ends in it.
  abbrev pub IsFound : ValueId → List ValuePath → Type 0
  IsFound v found = is_target (ir.value v) ≡ true → any_of (is_at v) found ≡ true

  target-plain : (v : Value) → is_target v ≡ true → is_intrinsic v ≡ false
  target-plain (call b c) h = ground arith
  target-plain v h = cc

  matches :
      (p : ValuePath) (v : Value) (found : List ValuePath)
      → (match_target ir p v found).1
        ≡ (if (if is_intrinsic v then not (is_memcpy v) else is_target v) then skip else continue)
  unfolding match_target
  matches p v found = elim (Bool-cases (is_intrinsic v)) [
    | inl i ↦ elim (Bool-cases (is_memcpy v)) [
      | inl m ↦ rw (i, match_target) (rw m)
      | inr m ↦ rw (i, match_target) (rw m)
    ]
    | inr i ↦ elim (Bool-cases (is_target v)) [
      | inl t ↦ rw (i, match_target) (rw t)
      | inr t ↦ rw (i, match_target) (rw t)
    ]
  ]

  grows :
      (p : ValuePath) (v : Value) (u : ValueId) (found : List ValuePath)
      → any_of (is_at u) found ≡ true
      → any_of (is_at u) (match_target ir p v found).0 ≡ true
  unfolding match_target
  grows p v u found h = elim (Bool-cases (is_intrinsic v)) [
    | inl i ↦ rw (i, match_target) h
    | inr i ↦ elim (Bool-cases (is_target v)) [
      | inl t ↦ rw (i, match_target) (rw t (any_of-append (is_at u) found (p ∷ []) ∙ rw h))
      | inr t ↦ rw (i, match_target) (rw t h)
    ]
  ]

  last_at :
      (p : ValuePath) (v : ValueId) (found : List ValuePath)
      → value p ≡ some v
      → (any_of (is_at v) found || any_of (is_at v) (p ∷ [])) ≡ true
  last_at p v found e = rw (e, is_at) (ground (arith, (==_iff v v).1 refl))

  records :
      (p : ValuePath) (v : ValueId) (found : List ValuePath)
      → value p ≡ some v
      → is_target (ir.value v) ≡ true
      → any_of (is_at v) (match_target ir p (ir.value v) found).0 ≡ true
  unfolding match_target
  records p v found e t =
      rw (target-plain (ir.value v) t, match_target)
        (rw t (any_of-append (is_at v) found (p ∷ []) ∙ last_at p v found e))

  pub target_matcher-Explores :
      Explores
        (malloc_target_matcher ir)
        (λ p. true)
        (malloc_backtrack_search ir)
        operands
        halts
        IsFound
  unfolding malloc_target_matcher malloc_backtrack_search
  target_matcher-Explores = record {
    matches = λ p v m e. rw (e, malloc_target_matcher) (matches p (ir.value v) m);
    searches = λ p. refl;
    directs = λ p v e.
        rw (e, malloc_backtrack_search)
          (elim (Option-cases (backtrack_operands ir (ir.value v))) [
            | inl n ↦ inr (n, rw (n, operands))
            | inr (vs, s) ↦ inl (rw (s, operands))
          ]);
    handles = λ p v m e t. rw (e, malloc_target_matcher) (records p v m e t);
    keeps = λ p v u m e k t. rw (e, malloc_target_matcher) (grows p (ir.value v) u m (k t));
  }

  -- If path_from_value returns, every alloca, argument, global variable or call that one comes to by
  -- going back from the value, through neither of these and through no intrinsic but memcpy, has a path
  -- that ends in it.
  pub path_from_value-finds :
      (fuel : ℕ) (v : ValueId) (paths : List ValuePath)
      → path_from_value ir fuel v ≡ some paths
      → (u : ValueId) → Reach operands halts v u
      → is_target (ir.value u) ≡ true
      → any_of (is_at u) paths ≡ true
  unfolding path_from_value backtrack_from
  path_from_value-finds fuel v paths e =
      traverse_custom-finds (malloc_target_matcher ir) (λ p. true) (malloc_backtrack_search ir)
        operands halts IsFound target_matcher-Explores v fuel [] paths e
