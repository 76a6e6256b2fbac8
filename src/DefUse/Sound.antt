-- ===== src/DefUse/Sound.antt =====
-- The paths that the search of lib/type/DefUseAnalysis.h hands to its matcher.
use llvm_dimeta.Base.{
  if◌then◌else◌, ==_iff, Bool-cases, Option-cases, All, contains, ℕ, zero, suc, ◌≡◌, subst, inl,
  inr, Bool, true, Option, some, some-injective, List, [], ◌∷◌, arith,
}
use llvm_dimeta.Ir.{ValueId}
use llvm_dimeta.ValuePath.{ValuePath, start_at, value, extend, extend_lem}
use llvm_dimeta.DefUse.{
  MatchResult, MatchResult-cases, Work, add_to_work_s, add_to_work, apply_search_direction,
  do_traverse, traverse_custom,
}

module _ {M : Type 0} (match : ValuePath → M → M × MatchResult) (should_search : ValuePath → Bool)
    (search : ValuePath → Option (List ValueId)) (start : ValueId) where
  -- The chains from the start along the search direction, through paths that may be searched from
  pub data Chained : ValuePath → Type 0 where
    begins : Chained (start_at start)
    extends :
        (p : ValuePath) (vs : List ValueId) (v : ValueId)
        → Chained p
        → should_search p ≡ true
        → search p ≡ some vs
        → contains vs v ≡ true
        → Chained (extend p v)

  add_to_work-Chained :
      (w : Work) (p : ValuePath) (vs us : List ValueId)
      → Chained p
      → should_search p ≡ true
      → search p ≡ some us
      → ((v : ValueId) → contains vs v ≡ true → contains us v ≡ true)
      → All Chained w.working_set
      → All Chained (add_to_work w vs p).working_set
  unfolding add_to_work add_to_work_s
  add_to_work-Chained w p [] us c b e sub k = k
  add_to_work-Chained w p (v ∷ vs) us c b e sub k =
      add_to_work-Chained (add_to_work_s w (extend p v)) p vs us c b e (λ u i. sub u (ground arith))
        (rw ((extend_lem p v).0, add_to_work_s)
          (elim (Bool-cases (contains w.seen_set v)) [
            | inl old ↦ rw old k
            | inr new ↦ rw new (extends p us v c b e (sub v (ground (arith, ==_iff v v))), k)
          ]))

  pub after-Chained :
      (w : Work) (p : ValuePath)
      → Chained p
      → All Chained w.working_set
      → All Chained
          (if should_search p
            then apply_search_direction match should_search search w p
            else w).working_set
  unfolding apply_search_direction
  after-Chained w p c k = elim (Bool-cases (should_search p)) [
    | inr no_search ↦ rw no_search k
    | inl searched ↦ elim (Option-cases (search p)) [
      | inl e ↦ rw (searched, e, apply_search_direction) k
      | inr (vs, e) ↦
          rw (searched, e, apply_search_direction)
            (add_to_work-Chained w p vs vs c searched e (λ v i. i) k)
    ]
  ]

  -- A property of the matcher's state that each call keeps on a chain from the start holds at the end.
  module _ (P : M → Type 0)
      (keep : (p : ValuePath) (m : M) → Chained p → P m → P (match p m).0) where
    do_traverse-keeps :
        (fuel : ℕ) (ps : List ValuePath) (seen : List ValueId) (m r : M)
        → All Chained ps
        → P m
        → do_traverse match should_search search fuel
            (record { working_set = ps; seen_set = seen })
            m
          ≡ some r
        → P r
    unfolding do_traverse
    do_traverse-keeps zero ps seen m r k q e = cc
    do_traverse-keeps (suc fuel) [] seen m r k q e = subst P (some-injective m r e) q
    do_traverse-keeps (suc fuel) (p ∷ ps) seen m r (c, k) q e = elim (Option-cases (value p)) [
      | inl no_value ↦ do_traverse-keeps fuel ps seen m r k q (rw (no_value, do_traverse) at e)
      | inr (v, ends) ↦ elim (MatchResult-cases (match p m).1) [
        | inl goes ↦
            let w = after-Chained (record { working_set = ps; seen_set = v ∷ seen }) p c k in
            do_traverse-keeps fuel _ _ (match p m).0 r w (keep p m c q)
              (rw goes at (rw (ends, do_traverse) at e))
        | inr (inl stops) ↦
            subst P (some-injective (match p m).0 r (rw stops at (rw (ends, do_traverse) at e)))
              (keep p m c q)
        | inr (inr skips) ↦
            do_traverse-keeps fuel ps (v ∷ seen) (match p m).0 r k (keep p m c q)
              (rw skips at (rw (ends, do_traverse) at e))
      ]
    ]

    -- The matcher sees only chains from the start: what its calls keep on these holds at the end.
    pub traverse_custom-keeps :
        (fuel : ℕ) (m r : M)
        → P m
        → traverse_custom match should_search search fuel start m ≡ some r
        → P r
    unfolding traverse_custom value add_to_work_s
    traverse_custom-keeps fuel m r q e =
        do_traverse-keeps fuel (start_at start ∷ []) [] m r (begins, tt) q e
