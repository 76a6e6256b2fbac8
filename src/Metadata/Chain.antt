-- ===== src/Metadata/Chain.antt =====
-- The chains of base types that the loops over llvm::DIDerivedType::getBaseType walk along.
use llvm_dimeta.Base.{ℕ, zero, suc, ◌≡◌, Option, none, some, List, [], ◌∷◌}
use llvm_dimeta.Metadata.{
  NodeId, DerivedType, CompositeType, DiNode, derived, composite, Metadata, as_derived,
  as_composite,
}

module _ (g : Metadata) where
  -- The derived types that one passes from a pointer to another.
  pub data Chain : Option NodeId → List DerivedType → Option NodeId → Type 0 where
    here : {t : Option NodeId} → Chain t [] t
    next :
        {t : NodeId} {d : DerivedType} {ds : List DerivedType} {e : Option NodeId}
        → as_derived (g t) ≡ some d
        → Chain d.base_type ds e
        → Chain (some t) (d ∷ ds) e

  -- The chain from `t` comes to null or to a type that is not derived within fewer than `n` steps.
  -- The compiler makes no derived type that is its own base.
  abbrev pub HasEnd : ℕ → Option NodeId → Type 0
  HasEnd zero t = ⊥
  HasEnd (suc n) none = Unit
  HasEnd (suc n) (some t) = elim (as_derived (g t)) [ some d ↦ HasEnd n d.base_type | none ↦ Unit ]

  -- A pointer that is null or leads to no derived type.
  abbrev pub IsBase : Option NodeId → Type 0
  IsBase none = Unit
  IsBase (some t) = as_derived (g t) ≡ none

pub as_derived-some : (n : DiNode) (d : DerivedType) → as_derived n ≡ some d → n ≡ derived d
as_derived-some (derived d') d e = cc
as_derived-some n d e = cc

pub as_composite-some : (n : DiNode) (c : CompositeType) → as_composite n ≡ some c → n ≡ composite c
as_composite-some (composite c') c e = cc
as_composite-some n c e = cc
