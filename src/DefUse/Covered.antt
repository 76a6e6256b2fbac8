-- ===== src/DefUse/Covered.antt =====
-- What the search of lib/type/DefUseAnalysis.h has covered: the values that were seen or are on the stack.

use llvm_dimeta.Base.{
  ◌==◌, ==_iff, Bool-cases, any_of, contains, ◌≡◌, refl, subst, ◌⊎◌, inl, inr, Bool, true, false,
  ◌||◌, none, some, List, [], ◌∷◌, arith,
}
use llvm_dimeta.Ir.{ValueId}
use llvm_dimeta.ValuePath.{ValuePath, value, extend, extend_lem}
use llvm_dimeta.DefUse.{Work, add_to_work}
use llvm_dimeta.DefUse.Cost.{add_to_work_s-extend}

-- `next` is the search direction, and the matcher stops at the values `stops`.
module _ (next : ValueId → List ValueId) (stops : ValueId → Bool) (start : ValueId) where
  -- The values that one comes to from the start, going on only from values that do not stop
  pub data Reach : ValueId → Type 0 where
    here : {v : ValueId} → v ≡ start → Reach v
    onward :
        {u : ValueId} (v : ValueId)
        → Reach u
        → stops u ≡ false
        → contains (next u) v ≡ true
        → Reach v

abbrev pub is_at : ValueId → ValuePath → Bool
is_at v p = elim (value p) [ none ↦ false | some u ↦ u == v ]

-- A value was seen, or a path on the stack ends in it.
abbrev pub Covered : Work → ValueId → Type 0
Covered w v = (contains w.seen_set v ≡ true) ⊎ (any_of (is_at v) w.working_set ≡ true)

pub record Covers (w : Work) (vs : List ValueId) (w' : Work) : Type 0 where
  pub seen : w'.seen_set ≡ w.seen_set
  pub keeps : (v : ValueId) → Covered w v → Covered w' v
  pub adds : (v : ValueId) → contains vs v ≡ true → Covered w' v

is_at-extend : (p : ValuePath) (v u : ValueId) → is_at u (extend p v) ≡ (v == u)
is_at-extend p v u = rw ((extend_lem p v).0, is_at)

pub add_to_work-Covers :
    (w : Work) (vs : List ValueId) (p : ValuePath) → Covers w vs (add_to_work w vs p)
unfolding add_to_work
add_to_work-Covers w [] p = record { seen = refl; keeps = λ v k. k; adds = λ v h. cc }
add_to_work-Covers w (v ∷ vs) p =
    rw (add_to_work_s-extend w p v) (elim (Bool-cases (contains w.seen_set v)) [
      | inl old ↦ rw old (
          let r = add_to_work-Covers w vs p in
          record {
            seen = r.seen;
            keeps = r.keeps;
            adds = λ u h. elim (Bool-cases (v == u)) [
              | inl same ↦
                  r.keeps u
                    (inl (subst (λ x. contains w.seen_set x ≡ true) ((==_iff v u).0 same) old))
              | inr other ↦ r.adds u (rw other at h)
            ];
          })
      | inr new ↦ rw new (
          let w1 : Work = record w { working_set = extend p v ∷ w.working_set } in
          let r = add_to_work-Covers w1 vs p in
          record {
            seen = r.seen;
            keeps = λ u k. r.keeps u (elim k [ inl s ↦ inl s | inr q ↦ inr (ground (arith, q)) ]);
            adds = λ u h. elim (Bool-cases (v == u)) [
              | inl same ↦ r.keeps u (inr (rw (is_at-extend p v u) (rw same)))
              | inr other ↦ r.adds u (rw other at h)
            ];
          })
    ])

-- A path that left the stack had no value, or its value was seen since.
pub popped :
    (p : ValuePath) (ps : List ValuePath) (v : ValueId) (seen : List ValueId) (u : ValueId)
    → value p ≡ some v
    → Covered (record { working_set = p ∷ ps; seen_set = seen }) u
    → Covered (record { working_set = ps; seen_set = v ∷ seen }) u
popped p ps v seen u e (inl s) = inl (ground arith)
popped p ps v seen u e (inr q) =
    let q' : ((v == u) || any_of (is_at u) ps) ≡ true = rw (e, is_at) at q in
    elim (Bool-cases (v == u)) [ inl same ↦ inl (rw same) | inr other ↦ inr (rw other at q') ]

pub popped_empty :
    (p : ValuePath) (ps : List ValuePath) (seen : List ValueId) (u : ValueId)
    → value p ≡ none
    → Covered (record { working_set = p ∷ ps; seen_set = seen }) u
    → Covered (record { working_set = ps; seen_set = seen }) u
popped_empty p ps seen u e (inl s) = inl s
popped_empty p ps seen u e (inr q) = inr (rw (e, is_at) at q)
