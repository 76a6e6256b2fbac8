-- ===== src/Gep/Peel.antt =====
-- What `find_non_derived_type_unless` of lib/type/GEP.cpp finds.
use llvm_dimeta.Base.{
  Bool-cases, Option-cases, All, Outcome, done, ℕ, zero, suc, ◌≡◌, refl, ◌⊎◌, inl, inr, Bool, true,
  false, none, some, List, [], ◌∷◌,
}
use llvm_dimeta.Metadata.{NodeId, DerivedType, DiNode, derived, Metadata, as_derived, Ptr}
use llvm_dimeta.Metadata.Chain.{Chain, here, next, HasEnd, IsBase, as_derived-some}
use llvm_dimeta.Gep.{find_non_derived_type_unless}

module _ (g : Metadata) (unless : DiNode → Bool) where
  pub record Peels (t : Ptr) (r : Outcome Ptr) : Type 0 where
    pub passed : List DerivedType
    pub end : Ptr
    pub finds : r ≡ done end
    pub path : Chain g t passed end
    pub clear : All (λ d. unless (derived d) ≡ false) passed
    pub stops : IsBase g end ⊎ ((n : NodeId) × (end ≡ some n) × (unless (g n) ≡ true))

  -- If the chain of base types ends within the fuel, the loop returns the first type along it that is
  -- null, not derived or kept by the test `unless`; it passes only derived types that the test does not
  -- keep.
  pub find_non_derived_type_unless-Peels :
      (fuel : ℕ) (t : Ptr)
      → HasEnd g fuel t
      → Peels t (find_non_derived_type_unless g fuel unless t)
  unfolding find_non_derived_type_unless
  find_non_derived_type_unless-Peels zero t h = absurd h
  find_non_derived_type_unless-Peels (suc fuel) none h = record {
    passed = [];
    end = none;
    finds = refl;
    path = here;
    clear = tt;
    stops = inl tt;
  }
  find_non_derived_type_unless-Peels (suc fuel) (some t) h =
      elim (Option-cases (as_derived (g t))) [
        | inl e ↦ record {
          passed = [];
          end = some t;
          finds = rw (e, find_non_derived_type_unless);
          path = here;
          clear = tt;
          stops = inl e;
        }
        | inr (d, e) ↦ elim (Bool-cases (unless (g t))) [
          | inl kept ↦ record {
            passed = [];
            end = some t;
            finds = rw (e, kept, find_non_derived_type_unless);
            path = here;
            clear = tt;
            stops = inr (t, refl, kept);
          }
          | inr peeled ↦
              let rest =
                find_non_derived_type_unless-Peels fuel d.base_type (rw (e, HasEnd) at h) in
              record {
                passed = d ∷ rest.passed;
                end = rest.end;
                finds = rw (e, peeled, find_non_derived_type_unless) rest.finds;
                path = next e rest.path;
                clear = (rw (← as_derived-some (g t) d e) peeled, rest.clear);
                stops = rest.stops;
              }
        ]
      ]
