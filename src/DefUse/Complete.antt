-- ===== src/DefUse/Complete.antt =====
-- The search of lib/type/DefUseAnalysis.h misses nothing, if the matcher never cancels and the search
-- direction depends on the value that a path ends in.

use llvm_dimeta.Base.{
  ◌==◌, if◌then◌else◌, ==_iff, Bool-cases, Option-cases, contains, ℕ, zero, suc, ◌≡◌, refl, sym,
  subst, ◌∙◌, ◌⊎◌, inl, inr, Bool, true, false, Option, none, some, some-injective, List, [], ◌∷◌,
}
use llvm_dimeta.Ir.{ValueId}
use llvm_dimeta.ValuePath.{ValuePath, start_at, value}
use llvm_dimeta.DefUse.{
  MatchResult, continue, skip, Work, add_to_work_s, apply_search_direction, do_traverse,
  traverse_custom,
}
use llvm_dimeta.DefUse.Covered.{
  Reach, here, onward, Covered, Covers, add_to_work-Covers, popped, popped_empty,
}

module _ {M : Type 0} (match : ValuePath → M → M × MatchResult) (should_search : ValuePath → Bool)
    (search : ValuePath → Option (List ValueId)) (next : ValueId → List ValueId)
    (stops : ValueId → Bool) (D : ValueId → M → Type 0) where
  -- What the callbacks do at a path that ends in `v`: they skip the values that stop and go on from all
  -- others to `next`; the matcher handles `v` and keeps what it handled before.
  pub record Explores : Type 0 where
    pub matches :
        (p : ValuePath) (v : ValueId) (m : M)
        → value p ≡ some v
        → (match p m).1 ≡ (if stops v then skip else continue)
    pub searches : (p : ValuePath) → should_search p ≡ true
    pub directs :
        (p : ValuePath) (v : ValueId)
        → value p ≡ some v
        → (search p ≡ some (next v)) ⊎ ((search p ≡ none) × (next v ≡ []))
    pub handles : (p : ValuePath) (v : ValueId) (m : M) → value p ≡ some v → D v (match p m).0
    pub keeps :
        (p : ValuePath) (v u : ValueId) (m : M) → value p ≡ some v → D u m → D u (match p m).0

  -- The loop's invariant
  record Explored (start : ValueId) (w : Work) (m : M) : Type 0 where
    begun : Covered w start
    handled : (v : ValueId) → contains w.seen_set v ≡ true → D v m
    closed :
        (u v : ValueId)
        → contains w.seen_set u ≡ true
        → stops u ≡ false
        → contains (next u) v ≡ true
        → Covered w v

  module _ (explores : Explores) (start : ValueId) where
    Reach-seen :
        (seen : List ValueId) (m : M)
        → Explored start (record { working_set = []; seen_set = seen }) m
        → (v : ValueId) → Reach next stops start v
        → contains seen v ≡ true
    Reach-seen seen m i v (here e) =
        subst (λ x. contains seen x ≡ true) (sym e) (elim i.begun [ inl s ↦ s | inr q ↦ cc ])
    Reach-seen seen m i v (onward {u} _ r goes member) =
        elim (i.closed u v (Reach-seen seen m i u r) goes member) [ inl s ↦ s | inr q ↦ cc ]

    applied :
        (w : Work) (p : ValuePath) (v : ValueId)
        → value p ≡ some v
        → Covers w
            (next v)
            (if should_search p then apply_search_direction match should_search search w p else w)
    unfolding apply_search_direction
    applied w p v e = rw (explores.searches p) (elim (explores.directs p v e) [
      | inl d ↦ rw (d, apply_search_direction) (add_to_work-Covers w (next v) p)
      | inr (d, n) ↦
          rw (d, n, apply_search_direction)
            (record { seen = refl; keeps = λ u k. k; adds = λ u h. cc })
    ])

    -- One round keeps the invariant, the match being done.
    seen_more :
        (ps : List ValuePath) (p : ValuePath) (v : ValueId) (seen : List ValueId) (m : M)
        (u : ValueId)
        → value p ≡ some v
        → Explored start (record { working_set = p ∷ ps; seen_set = seen }) m
        → contains (v ∷ seen) u ≡ true
        → D u (match p m).0
    seen_more ps p v seen m u e i h = elim (Bool-cases (v == u)) [
      | inl same ↦ subst (λ x. D x (match p m).0) ((==_iff v u).0 same) (explores.handles p v m e)
      | inr other ↦ explores.keeps p v u m e (i.handled u (rw other at h))
    ]

    closed_kept :
        (w w' : Work) (m m' : M) (v : ValueId)
        → Explored start w m
        → w'.seen_set ≡ v ∷ w.seen_set
        → ((u : ValueId) → Covered w u → Covered w' u)
        → (stops v ≡ false → (u : ValueId) → contains (next v) u ≡ true → Covered w' u)
        → ((u : ValueId) → contains (v ∷ w.seen_set) u ≡ true → D u m')
        → Explored start w' m'
    closed_kept w w' m m' v i s covered new handled = record {
      begun = covered start i.begun;
      handled = λ u h. handled u (rw s at h);
      closed = λ u y h goes member.
          let h' : contains (v ∷ w.seen_set) u ≡ true = rw s at h in
          elim (Bool-cases (v == u)) [
            | inl same ↦
                let e : v ≡ u = (==_iff v u).0 same in
                new (subst (λ x. stops x ≡ false) (sym e) goes) y
                  (subst (λ x. contains (next x) y ≡ true) (sym e) member)
            | inr other ↦ covered y (i.closed u y (rw other at h') goes member)
          ];
    }

    do_traverse-finds :
        (fuel : ℕ) (ps : List ValuePath) (seen : List ValueId) (m r : M)
        → Explored start (record { working_set = ps; seen_set = seen }) m
        → do_traverse match should_search search fuel
            (record { working_set = ps; seen_set = seen })
            m
          ≡ some r
        → (v : ValueId) → Reach next stops start v
        → D v r
    unfolding do_traverse
    do_traverse-finds zero ps seen m r i e v reach = let n : none ≡ some r = e in cc
    do_traverse-finds (suc fuel) [] seen m r i e v reach =
        subst (D v) (some-injective m r e) (i.handled v (Reach-seen seen m i v reach))
    do_traverse-finds (suc fuel) (p ∷ ps) seen m r i e v reach = elim (Option-cases (value p)) [
      | inl no_value ↦
          do_traverse-finds fuel ps seen m r
            (record {
              begun = popped_empty p ps seen start no_value i.begun;
              handled = i.handled;
              closed = λ u y h goes member.
                  popped_empty p ps seen y no_value (i.closed u y h goes member);
            })
            (rw (no_value, do_traverse) at e) v reach
      | inr (u, ends) ↦
          let w : Work = record { working_set = p ∷ ps; seen_set = seen } in
          let w1 : Work = record { working_set = ps; seen_set = u ∷ seen } in
          elim (Bool-cases (stops u)) [
            | inl halts ↦
                let decided : (match p m).1 ≡ skip = explores.matches p u m ends ∙ rw halts in
                do_traverse-finds fuel ps (u ∷ seen) (match p m).0 r
                  (closed_kept w w1 m (match p m).0 u i refl (λ y c. popped p ps u seen y ends c)
                    (λ goes. cc) (λ y h. seen_more ps p u seen m y ends i h))
                  (rw decided at (rw (ends, do_traverse) at e)) v reach
            | inr goes_on ↦
                let decided : (match p m).1 ≡ continue = explores.matches p u m ends ∙ rw goes_on in
                let c = applied w1 p u ends in
                do_traverse-finds fuel _ _ (match p m).0 r
                  (closed_kept w _ m (match p m).0 u i c.seen
                    (λ y k. c.keeps y (popped p ps u seen y ends k)) (λ goes. c.adds)
                    (λ y h. seen_more ps p u seen m y ends i h))
                  (rw decided at (rw (ends, do_traverse) at e)) v reach
          ]
    ]

    -- If the search returns, the matcher has handled every value that one comes to from the start, going
    -- on only from values where the matcher does not stop.
    pub traverse_custom-finds :
        (fuel : ℕ) (m r : M)
        → traverse_custom match should_search search fuel start m ≡ some r
        → (v : ValueId) → Reach next stops start v
        → D v r
    unfolding traverse_custom value add_to_work_s
    traverse_custom-finds fuel m r e v reach =
        do_traverse-finds fuel (start_at start ∷ []) [] m r
          (record {
            begun = inr (rw ((==_iff start start).1 refl));
            handled = λ u h. cc;
            closed = λ u y h goes member. cc;
          })
          e v reach
