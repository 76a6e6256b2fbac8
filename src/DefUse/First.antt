-- ===== src/DefUse/First.antt =====
-- The search of lib/type/DefUseAnalysis.h with a matcher that cancels it at the first hit.
use llvm_dimeta.Base.{
  Bool-cases, Option-cases, ◌≡◌, refl, sym, subst, ◌⊎◌, inl, inr, Bool, true, false, ◌||◌, Option,
  none, some, some-injective, List, [], ◌∷◌, ℕ, zero, suc, All, arith,
}
use llvm_dimeta.Ir.{ValueId}
use llvm_dimeta.ValuePath.{ValuePath, start_at, value}
use llvm_dimeta.DefUse.{
  MatchResult, continue, cancel, add_to_work_s, apply_search_direction, do_traverse,
  traverse_custom,
}
use llvm_dimeta.DefUse.Covered.{Reach}
use llvm_dimeta.DefUse.Complete.{Explores, traverse_custom-finds}
use llvm_dimeta.DefUse.Sound.{Chained, begins, after-Chained}

module _ {M : Type 0} (match : ValuePath → M → M × MatchResult)
    (search : ValuePath → Option (List ValueId)) (next : ValueId → List ValueId)
    (hit : ValueId → Bool) (start : ValueId) where
  -- The search ended at a hit on a chain from the start, or nothing that one comes to is a hit.
  pub data HitOrNone (m r : M) : Type 0 where
    at_hit :
        (p : ValuePath) (v : ValueId)
        → Chained match (λ q. true) search start p
        → value p ≡ some v
        → hit v ≡ true
        → r ≡ (match p m).0
        → HitOrNone m r
    no_hit :
        r ≡ m → ((v : ValueId) → Reach next (λ u. false) start v → hit v ≡ false) → HitOrNone m r

  -- The matcher cancels at a hit, and does nothing elsewhere.
  pub record Cancels : Type 0 where
    pub cancels :
        (p : ValuePath) (v : ValueId) (m : M)
        → value p ≡ some v
        → hit v ≡ true
        → (match p m).1 ≡ cancel
    pub passes :
        (p : ValuePath) (v : ValueId) (m : M)
        → value p ≡ some v
        → hit v ≡ false
        → ((match p m).0 ≡ m) × ((match p m).1 ≡ continue)
    pub directs :
        (p : ValuePath) (v : ValueId)
        → value p ≡ some v
        → (search p ≡ some (next v)) ⊎ ((search p ≡ none) × (next v ≡ []))

  -- A matcher that only notes whether there was a hit
  abbrev note : ValuePath → Bool → Bool × MatchResult
  note p b = (elim (value p) [ none ↦ b | some v ↦ b || hit v ], continue)

  abbrev IsNoted : ValueId → Bool → Type 0
  IsNoted v b = hit v ≡ true → b ≡ true

  module _ (c : Cancels) where
    note-Explores : Explores note (λ p. true) search next (λ u. false) IsNoted
    note-Explores = record {
      matches = λ p v m e. refl;
      searches = λ p. refl;
      directs = c.directs;
      handles = λ p v m e h. rw (e, note) (ground (arith, h));
      keeps = λ p v u m e k h. rw (e, note) (ground (arith, k h));
    }

    do_traverse-HitOrNote :
        (fuel : ℕ) (ps : List ValuePath) (seen : List ValueId) (m r : M)
        → All (Chained match (λ q. true) search start) ps
        → do_traverse match (λ p. true) search fuel (record { working_set = ps; seen_set = seen }) m
          ≡ some r
        → HitOrNone m r
          ⊎ (r ≡ m)
            × (do_traverse note
                  (λ p. true)
                  search
                  fuel
                  (record { working_set = ps; seen_set = seen })
                  false
                ≡ some false)
    unfolding do_traverse apply_search_direction
    do_traverse-HitOrNote zero ps seen m r k e = cc
    do_traverse-HitOrNote (suc fuel) [] seen m r k e = inr (sym (some-injective m r e), refl)
    do_traverse-HitOrNote (suc fuel) (p ∷ ps) seen m r (k, ks) e = elim (Option-cases (value p)) [
      | inl no_value ↦
          rw (no_value, do_traverse)
            (do_traverse-HitOrNote fuel ps seen m r ks (rw (no_value, do_traverse) at e))
      | inr (v, ends) ↦ elim (Bool-cases (hit v)) [
        | inl found ↦ inl (
            at_hit p v k ends found (
              sym (
                some-injective (match p m).0 r
                  (rw (c.cancels p v m ends found) at (rw (ends, do_traverse) at e)))))
        | inr passed ↦
            let w =
              after-Chained match (λ q. true) search start
                (record { working_set = ps; seen_set = v ∷ seen }) p k ks in
            let (kept, goes) = c.passes p v m ends passed in
            let unnoted : (note p false).0 ≡ false = rw (ends, note) passed in
            rw (ends, do_traverse)
              (subst
                (λ (b : Bool).
                  HitOrNone m r
                  ⊎ (r ≡ m)
                    × (do_traverse note (λ q. true) search fuel
                          (apply_search_direction note (λ q. true) search
                            (record { working_set = ps; seen_set = v ∷ seen }) p)
                          b
                        ≡ some false))
                (sym unnoted)
                (do_traverse-HitOrNote fuel _ _ m r w (
                  subst
                    (λ (x : M).
                      do_traverse match (λ q. true) search fuel
                        (apply_search_direction match (λ q. true) search
                          (record { working_set = ps; seen_set = v ∷ seen }) p)
                        x
                      ≡ some r)
                    kept (rw goes at (rw (ends, do_traverse) at e)))))
      ]
    ]

    -- What the search returns is what the matcher makes of the state at the first hit, or the state itself
    -- if nothing that one comes to is a hit.
    pub traverse_custom-HitOrNone :
        (fuel : ℕ) (m r : M)
        → traverse_custom match (λ p. true) search fuel start m ≡ some r
        → HitOrNone m r
    unfolding traverse_custom value add_to_work_s
    traverse_custom-HitOrNone fuel m r e =
        elim (do_traverse-HitOrNote fuel (start_at start ∷ []) [] m r (begins, tt) e) [
          | inl h ↦ h
          | inr (same, noted) ↦ no_hit same (λ v reach. elim (Bool-cases (hit v)) [
            | inr n ↦ n
            | inl h ↦
                let f : false ≡ true =
                  traverse_custom-finds note (λ p. true) search next (λ u. false) IsNoted
                    note-Explores start fuel false false noted v reach h in
                cc
          ])
        ]
