-- ===== src/DiUtil/Desugar.antt =====
-- What `desugar` of lib/type/DIUtil.cpp finds.
use llvm_dimeta.Base.{
  ltb, if◌then◌else◌, Bool-cases, Option-cases, count_if, Outcome, done, ℕ, zero, suc, ◌+◌, ◌≤◌,
  ◌<◌, ◌≡◌, refl, ◌⊎◌, inl, inr, true, Option, none, some, List, [], ◌∷◌, arith,
}
use llvm_dimeta.Metadata.{NodeId, DerivedType, derived, Metadata, as_derived}
use llvm_dimeta.Metadata.Chain.{Chain, here, next, HasEnd, IsBase}
use llvm_dimeta.DiUtil.{is_pointer, desugar_loop, if_composite, desugar}

-- The pointers and references among the derived types of a chain.
abbrev pub pointers : List DerivedType → ℕ
pointers ds = count_if (λ d. is_pointer (derived d) true) ds

module _ (g : Metadata) where
  -- Where the loop stops: no derived type is left, or `limit + 1` pointers were removed.
  abbrev pub Stops : ℕ → Option NodeId → List DerivedType → Type 0
  Stops limit e ds = IsBase g e ⊎ (limit < pointers ds)

  pub record Desugars (limit level : ℕ) (t : Option NodeId) (r : Outcome (Option NodeId))
      : Type 0 where
    pub passed : List DerivedType
    pub end : Option NodeId
    pub finds : r ≡ done end
    pub path : Chain g t passed end
    pub within : level + pointers passed ≤ suc limit
    pub stops : IsBase g end ⊎ (limit < level + pointers passed)

  desugar_loop-Desugars :
      (fuel limit level : ℕ) (t : Option NodeId)
      → HasEnd g fuel t
      → level ≤ suc limit
      → Desugars limit level t (desugar_loop g fuel limit level t)
  unfolding desugar_loop
  desugar_loop-Desugars zero limit level t h k = absurd h
  desugar_loop-Desugars (suc fuel) limit level none h k = record {
    passed = [];
    end = none;
    finds = refl;
    path = here;
    within = omega arith;
    stops = inl tt;
  }
  desugar_loop-Desugars (suc fuel) limit level (some t) h k =
      elim (Option-cases (as_derived (g t))) [
        | inl e ↦ record {
          passed = [];
          end = some t;
          finds = rw (e, desugar_loop);
          path = here;
          within = omega arith;
          stops = inl e;
        }
        | inr (d, e) ↦ elim (Bool-cases (ltb limit level)) [
          | inl over ↦ record {
            passed = [];
            end = some t;
            finds = ground arith;
            path = here;
            within = omega arith;
            stops = inr (ground arith);
          }
          | inr more ↦
              let level' : ℕ = if is_pointer (derived d) true then suc level else level in
              let rest =
                desugar_loop-Desugars fuel limit level' d.base_type (rw (e, HasEnd) at h)
                  (ground arith) in
              record {
                passed = d ∷ rest.passed;
                end = rest.end;
                finds = rw (e, more, desugar_loop) rest.finds;
                path = next e rest.path;
                within = ground (arith, rest.within);
                stops = ground (arith, rest.stops);
              }
        ]
      ]

  -- If the chain of base types from `t` ends within the fuel, desugar goes along it, over at most
  -- `limit + 1` pointers and references, until no derived type is left or that many were passed, and
  -- returns the composite type that it is at then, if it is at one.
  pub desugar-Desugars :
      (fuel limit : ℕ) (t : NodeId)
      → HasEnd g fuel (some t)
      → (passed : List DerivedType) × (end : Option NodeId) × Chain g (some t) passed end
        × (pointers passed ≤ suc limit)
        × (IsBase g end ⊎ (limit < pointers passed))
        × (desugar g fuel limit t ≡ done (if_composite g end))
  unfolding desugar
  desugar-Desugars fuel limit t h =
      let r = desugar_loop-Desugars fuel limit 0 (some t) h (omega arith) in
      (
        r.passed,
        r.end,
        r.path,
        omega (arith, r.within),
        elim r.stops [ inl b ↦ inl b | inr l ↦ inr (omega (arith, l)) ],
        rw (r.finds, desugar),
      )
