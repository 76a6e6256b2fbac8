-- ===== src/DefUse/Cost.antt =====
-- What the paths on the stack of the search of lib/type/DefUseAnalysis.h may cost.
use llvm_dimeta.DefUse.{Work, add_to_work_s, add_to_work}
use llvm_dimeta.Base.{
  if◌then◌else◌, Bool-cases, length, All, contains, ℕ, zero, suc, ◌+◌, ◌*◌, ◌≤◌, ◌<◌, ◌≡◌, refl,
  inl, inr, true, false, none, some, List, [], ◌∷◌, arith,
}
use llvm_dimeta.Ir.{ValueId}
use llvm_dimeta.ValuePath.{ValuePath, value, extend, extend_lem}

-- What a path on the stack may cost, `u` values being unseen, if its value is unseen. The search goes
-- on to at most `degree` values from each.
abbrev pub fresh_cost : ℕ → ℕ → ℕ
fresh_cost degree zero = 0
fresh_cost degree (suc u) =
    suc (suc (degree * fresh_cost degree u) + degree * fresh_cost degree u + fresh_cost degree u)

-- The same if its value was seen in the meantime
abbrev seen_cost : ℕ → ℕ → ℕ
seen_cost degree u = suc (degree * fresh_cost degree u)

abbrev path_cost : ℕ → ℕ → List ValueId → ValuePath → ℕ
path_cost degree u seen p = elim (value p) [
  | none ↦ 1
  | some v ↦ if contains seen v then seen_cost degree u else fresh_cost degree u
]

abbrev pub total_cost : ℕ → ℕ → List ValueId → List ValuePath → ℕ
total_cost degree u seen [] = 0
total_cost degree u seen (p ∷ ps) = path_cost degree u seen p + total_cost degree u seen ps

-- Seeing one more value makes no path dearer.
path_cost-cons :
    (degree u v : ℕ) (seen : List ValueId) (p : ValuePath)
    → path_cost degree u (v ∷ seen) p ≤ path_cost degree (suc u) seen p
path_cost-cons degree u v seen p = ground arith

pub total_cost-cons :
    (degree u v : ℕ) (seen : List ValueId) (ps : List ValuePath)
    → total_cost degree u (v ∷ seen) ps ≤ total_cost degree (suc u) seen ps
total_cost-cons degree u v seen [] = omega arith
total_cost-cons degree u v seen (p ∷ ps) =
    omega (arith, path_cost-cons degree u v seen p, total_cost-cons degree u v seen ps)

pub total_cost-cons_seen :
    (degree u v : ℕ) (seen : List ValueId) (ps : List ValuePath)
    → contains seen v ≡ true
    → total_cost degree u (v ∷ seen) ps ≡ total_cost degree u seen ps
total_cost-cons_seen degree u v seen [] h = refl
total_cost-cons_seen degree u v seen (p ∷ ps) h =
    ground (arith, total_cost-cons_seen degree u v seen ps h)

-- Every path on the stack ends in one of the values, which are the numbers below `size`.
abbrev pub EndsBelow : ℕ → ValuePath → Type 0
EndsBelow size p = (v : ValueId) × (value p ≡ some v) × (v < size)

pub add_to_work_s-extend :
    (w : Work) (p : ValuePath) (v : ValueId)
    → add_to_work_s w (extend p v)
      ≡ (if contains w.seen_set v then w else record w { working_set = extend p v ∷ w.working_set })
unfolding add_to_work_s
add_to_work_s-extend w p v = rw ((extend_lem p v).0, add_to_work_s)

path_cost-extend :
    (degree u v : ℕ) (seen : List ValueId) (p : ValuePath)
    → contains seen v ≡ false
    → path_cost degree u seen (extend p v) ≡ fresh_cost degree u
path_cost-extend degree u v seen p new = rw ((extend_lem p v).0, path_cost) (rw new)

mul_mono : (a b c : ℕ) → a ≤ b → a * c ≤ b * c
mul_mono a b c h = grind arith

-- The cost of the popped path pays for what was pushed.
pub pop_old :
    (degree u v k : ℕ) (seen : List ValueId) (p : ValuePath)
    → value p ≡ some v
    → contains seen v ≡ true
    → k ≤ degree
    → k * fresh_cost degree u < path_cost degree u seen p
pop_old degree u v k seen p e old h =
    rw (e, path_cost) (rw old (omega (arith, mul_mono k degree (fresh_cost degree u) h)))

pub pop_new :
    (degree u v k : ℕ) (seen : List ValueId) (p : ValuePath)
    → value p ≡ some v
    → contains seen v ≡ false
    → k ≤ degree
    → k * fresh_cost degree u < path_cost degree (suc u) seen p
pop_new degree u v k seen p e new h =
    rw (e, path_cost) (rw new (omega (arith, mul_mono k degree (fresh_cost degree u) h)))

pub record Pushed (degree size u : ℕ) (w : Work) (vs : List ValueId) (w' : Work) : Type 0 where
  pub seen : w'.seen_set ≡ w.seen_set
  pub below : All (EndsBelow size) w'.working_set
  pub cost :
      total_cost degree u w.seen_set w'.working_set
      ≤ total_cost degree u w.seen_set w.working_set + length vs * fresh_cost degree u

pub add_to_work-Pushed :
    (degree size u : ℕ) (w : Work) (vs : List ValueId) (p : ValuePath)
    → All (λ v. v < size) vs
    → All (EndsBelow size) w.working_set
    → Pushed degree size u w vs (add_to_work w vs p)
unfolding add_to_work
add_to_work-Pushed degree size u w [] p b k = record { seen = refl; below = k; cost = omega arith }
add_to_work-Pushed degree size u w (v ∷ vs) p b k =
    rw (add_to_work_s-extend w p v) (elim (Bool-cases (contains w.seen_set v)) [
      | inl old ↦ rw old (
          let r = add_to_work-Pushed degree size u w vs p b.1 k in
          record { seen = r.seen; below = r.below; cost = omega (arith, r.cost) })
      | inr new ↦ rw new (
          let w1 = record w { working_set = extend p v ∷ w.working_set } in
          let r = add_to_work-Pushed degree size u w1 vs p b.1 ((v, (extend_lem p v).0, b.0), k) in
          record {
            seen = r.seen;
            below = r.below;
            cost = omega (arith, r.cost, path_cost-extend degree u v w.seen_set p new);
          })
    ])
