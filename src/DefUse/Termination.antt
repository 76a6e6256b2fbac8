-- ===== src/DefUse/Termination.antt =====
-- The search of lib/type/DefUseAnalysis.h ends. A value may be on the stack several times, since it is
-- tested only when it is pushed. The bound on the rounds allows for that.
use llvm_dimeta.DefUse.{
  MatchResult, MatchResult-cases, Work, add_to_work_s, apply_search_direction, do_traverse,
  traverse_custom,
}
use llvm_dimeta.Base.{
  if◌then◌else◌, Bool-cases, Option-cases, length, All, contains, unseen, unseen-cons,
  unseen-cons_seen, unseen-nil, ℕ, zero, suc, ◌≤◌, ◌<◌, ◌≡◌, refl, sym, subst, ◌∙◌, inl, inr, Bool,
  true, false, Option, some, List, [], ◌∷◌, arith,
}
use llvm_dimeta.Ir.{ValueId}
use llvm_dimeta.ValuePath.{ValuePath, start_at, value}
use llvm_dimeta.DefUse.Cost.{
  fresh_cost, total_cost, total_cost-cons, total_cost-cons_seen, EndsBelow, pop_old, pop_new,
  Pushed, add_to_work-Pushed,
}

module _ {M : Type 0} (match : ValuePath → M → M × MatchResult) (should_search : ValuePath → Bool)
    (search : ValuePath → Option (List ValueId)) (size degree : ℕ)
    (bounded : (p : ValuePath) (vs : List ValueId)
      → search p ≡ some vs
      → All (λ v. v < size) vs × (length vs ≤ degree)) where
  apply-Pushed :
      (u : ℕ) (w : Work) (p : ValuePath) (b : Bool)
      → All (EndsBelow size) w.working_set
      → (vs : List ValueId) × (length vs ≤ degree)
        × Pushed degree size u w vs
            (if b then apply_search_direction match should_search search w p else w)
  unfolding apply_search_direction
  apply-Pushed u w p false k =
      ([], omega arith, record { seen = refl; below = k; cost = omega arith })
  apply-Pushed u w p true k = elim (Option-cases (search p)) [
    | inl e ↦ (
      [],
      omega arith,
      rw (e, apply_search_direction) (record { seen = refl; below = k; cost = omega arith }),
    )
    | inr (vs, e) ↦ (
      vs,
      (bounded p vs e).1,
      rw (e, apply_search_direction) (add_to_work-Pushed degree size u w vs p (bounded p vs e).0 k),
    )
  ]

  abbrev Returns : ℕ → Work → M → Type 0
  Returns fuel w m = (r : M) × (do_traverse match should_search search fuel w m ≡ some r)

  abbrev after : Bool → Work → ValuePath → Work
  after b w p = if b then apply_search_direction match should_search search w p else w

  -- One round from a path that ends in `v`
  round-Returns :
      (fuel : ℕ) (p : ValuePath) (ps : List ValuePath) (v : ValueId) (seen : List ValueId) (m : M)
      → value p ≡ some v
      → ((b : Bool) (m' : M)
          → Returns fuel (after b (record { working_set = ps; seen_set = v ∷ seen }) p) m')
      → Returns (suc fuel) (record { working_set = p ∷ ps; seen_set = seen }) m
  unfolding do_traverse
  round-Returns fuel p ps v seen m e next = elim (MatchResult-cases (match p m).1) [
    | inl c ↦ let r = next (should_search p) (match p m).0 in (r.0, rw (e, do_traverse) (rw c r.1))
    | inr (inl c) ↦ ((match p m).0, rw (e, do_traverse) (rw c))
    | inr (inr c) ↦ let r = next false (match p m).0 in (r.0, rw (e, do_traverse) (rw c r.1))
  ]

  -- With more fuel than the paths on the stack cost, the loop returns.
  do_traverse-Returns :
      (fuel u : ℕ) (ps : List ValuePath) (seen : List ValueId) (m : M)
      → u ≡ unseen size seen
      → All (EndsBelow size) ps
      → total_cost degree u seen ps < fuel
      → Returns fuel (record { working_set = ps; seen_set = seen }) m
  unfolding do_traverse
  do_traverse-Returns zero u ps seen m e k c = absurd (omega arith)
  do_traverse-Returns (suc fuel) u [] seen m e k c = (m, refl)
  do_traverse-Returns (suc fuel) u (p ∷ ps) seen m e ((v, ends, low), k) c =
      round-Returns fuel p ps v seen m ends λ b m'.
        let w : Work = record { working_set = ps; seen_set = v ∷ seen } in
        let w' : Work = after b w p in
        elim (Bool-cases (contains seen v)) [
          | inl old ↦
              let (vs, few, pushed) = apply-Pushed u w p b k in
              do_traverse-Returns fuel u w'.working_set w'.seen_set m'
                (rw pushed.seen (e ∙ sym (unseen-cons_seen size v seen old))) pushed.below
                (rw pushed.seen (
                  omega (
                    arith,
                    pushed.cost,
                    total_cost-cons_seen degree u v seen ps old,
                    pop_old degree u v (length vs) seen p ends old few,
                  )))
          | inr new ↦
              let u' : ℕ = unseen size (v ∷ seen) in
              let less : u ≡ suc u' = e ∙ sym (unseen-cons size v seen low new) in
              let c' : total_cost degree (suc u') seen (p ∷ ps) < suc fuel =
                subst (λ x. total_cost degree x seen (p ∷ ps) < suc fuel) less c in
              let (vs, few, pushed) = apply-Pushed u' w p b k in
              do_traverse-Returns fuel u' w'.working_set w'.seen_set m' (rw pushed.seen refl)
                pushed.below
                (rw pushed.seen (
                  omega (
                    arith,
                    pushed.cost,
                    total_cost-cons degree u' v seen ps,
                    pop_new degree u' v (length vs) seen p ends new few,
                  )))
        ]

  -- On a finite graph of values the search returns, whatever the callbacks decide: with `size` values
  -- and at most `degree` values to go on to from each, `fresh_cost degree size` rounds are enough.
  pub traverse_custom_returns :
      (fuel : ℕ) (v : ValueId) (m : M)
      → v < size
      → fresh_cost degree size < fuel
      → (r : M) × (traverse_custom match should_search search fuel v m ≡ some r)
  unfolding traverse_custom value add_to_work_s
  traverse_custom_returns fuel v m i c =
      do_traverse-Returns fuel size (start_at v ∷ []) [] m (sym (unseen-nil size))
        ((v, refl, i), tt) (omega arith)
