-- ===== src/Calls/Final.antt =====
-- What final_ditype of lib/type/Dimeta.cpp comes to.
use llvm_dimeta.Base.{
  if◌then◌else◌, Option-cases, count_if, Outcome, done, ℕ, zero, suc, ◌+◌, ◌≡◌, sym, ap, subst, ◌∙◌,
  ◌⊎◌, inl, inr, false, Option, none, some, List, [], ◌∷◌, arith,
}
use llvm_dimeta.Metadata.{NodeId, DerivedType, derived, Metadata, as_derived}
use llvm_dimeta.Metadata.Chain.{Chain, here, next, HasEnd}
use llvm_dimeta.DiUtil.{is_pointer}
use llvm_dimeta.Calls.{final_loop, final_ditype}

-- The pointers among the derived types of a chain; references are not counted.
abbrev pub pointer_count : List DerivedType → ℕ
pointer_count ds = count_if (λ d. is_pointer (derived d) false) ds

module _ (g : Metadata) where
  -- From `t` the chain of base types comes to `end`, which is no derived type, or is one without a base
  -- type, and then counts too.
  pub record FinalType (level : ℕ) (t : NodeId) (r : NodeId × ℕ) : Type 0 where
    pub passed : List DerivedType
    pub path : Chain g (some t) passed (some r.0)
    pub ends :
        (as_derived (g r.0) ≡ none) × (r.1 ≡ level + pointer_count passed)
        ⊎ ((d : DerivedType) × (as_derived (g r.0) ≡ some d)
            × (d.base_type ≡ none)
            × (r.1 ≡ level + pointer_count (d ∷ passed)))

  final_loop-FinalType :
      (fuel level : ℕ) (t : NodeId)
      → HasEnd g fuel (some t)
      → (r : NodeId × ℕ) × (final_loop g fuel level t ≡ done r) × FinalType level t r
  unfolding final_loop
  final_loop-FinalType zero level t h = absurd h
  final_loop-FinalType (suc fuel) level t h = elim (Option-cases (as_derived (g t))) [
    | inl e ↦ (
      (t, level),
      rw (e, final_loop),
      record { passed = []; path = here; ends = inl (e, omega arith) },
    )
    | inr (d, e) ↦
        let level' : ℕ = if is_pointer (derived d) false then suc level else level in
        let after_base : Option NodeId → Outcome (NodeId × ℕ) =
          λ o. elim o [ none ↦ done (t, level') | some b ↦ final_loop g fuel level' b ] in
        elim (Option-cases d.base_type) [
          | inl null ↦ (
            (t, level'),
            rw (e, final_loop) (ap after_base null),
            record { passed = []; path = here; ends = inr (d, e, null, ground arith) },
          )
          | inr (b, base) ↦
              let (r, finds, f) =
                final_loop-FinalType fuel level' b
                  (subst (HasEnd g fuel) base (rw (e, HasEnd) at h)) in
              (
                r,
                rw (e, final_loop) (ap after_base base ∙ finds),
                record {
                  passed = d ∷ f.passed;
                  path = next e (subst (λ o. Chain g o f.passed (some r.0)) (sym base) f.path);
                  ends = elim f.ends [
                    | inl (last, n) ↦ inl (last, ground (arith, n))
                    | inr (d', last, null, n) ↦ inr (d', last, null, ground (arith, n))
                  ];
                },
              )
        ]
  ]

  -- If the chain of base types from `t` ends within the fuel, final_ditype returns the end of the chain,
  -- which is no derived type or has no base type, and the number of pointers on the chain.
  pub final_ditype-FinalType :
      (fuel : ℕ) (t : NodeId)
      → HasEnd g fuel (some t)
      → (r : NodeId × ℕ) × (final_ditype g fuel (some (some t)) ≡ done (some (some r.0), r.1))
        × FinalType 0 t r
  unfolding final_ditype
  final_ditype-FinalType fuel t h =
      let (r, finds, f) = final_loop-FinalType fuel 0 t h in (r, rw (finds, final_ditype), f)
