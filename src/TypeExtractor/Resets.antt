-- ===== src/TypeExtractor/Resets.antt =====
-- The loop of find_type in lib/type/DITypeExtractor.cpp over the values of a path: the types it goes
-- through, and what its last mapping is.
use llvm_dimeta.Base.{
  has_value, back?, back?-append, done, done-injective, >>=-eq-done, ℕ, ◌≡◌, refl, ap, subst, Bool,
  true, Option, none, some, List, [], ◌∷◌, ◌++◌,
}
use llvm_dimeta.Metadata.{Metadata, Ptr}
use llvm_dimeta.Ir.{ValueId, Ir}
use llvm_dimeta.ValuePath.{ValuePath}
use llvm_dimeta.TypeExtractor.FortranType.{IrMapping, final_type, value_or}
use llvm_dimeta.TypeExtractor.FindType.{reset_ditype, reset_path}
use llvm_dimeta.Tbaa.{TbaaData}

module _ (use_tbaa : Bool) (tbaa : TbaaData) (g : Metadata) (ir : Ir) (chain walk : ℕ)
    (path : ValuePath) where
  -- The values in turn lead from one type to another; where one has no type the last stays.
  pub data Resets : List ValueId → Ptr → Ptr → Type 0 where
    stop : {t u : Ptr} → t ≡ u → Resets [] t u
    step :
        {v : ValueId} {vs : List ValueId} {t u : Ptr} (r : Option Ptr)
        → reset_ditype use_tbaa tbaa g ir chain walk path t v ≡ done r
        → Resets vs (value_or r t) u
        → Resets (v ∷ vs) t u

  -- The last value `s` gives the last mapping.
  pub record Ends (vs : List ValueId) (s : ValueId) (t : Ptr) (r : Ptr × List IrMapping)
      : Type 0 where
    pub before : Ptr
    pub last : Option Ptr
    pub resets : Resets vs t before
    pub last_eq : reset_ditype use_tbaa tbaa g ir chain walk path before s ≡ done last
    pub type_eq : value_or last before ≡ r.0
    pub maps_eq : back? r.1 ≡ some (record { from_value = some s; mapped = value_or last none })

  pub reset_path-Ends :
      (vs : List ValueId) (s : ValueId) (t : Ptr) (maps : List IrMapping) {r : Ptr × List IrMapping}
      → reset_path use_tbaa tbaa g ir chain walk path (vs ++ s ∷ []) t maps ≡ done r
      → Ends vs s t r
  unfolding reset_path
  reset_path-Ends [] s t maps {r} h =
      let (l, e, k) = >>=-eq-done (reset_ditype use_tbaa tbaa g ir chain walk path t s) _ h in
      record {
        before = t;
        last = l;
        resets = stop refl;
        last_eq = e;
        type_eq = ap (λ (q : Ptr × List IrMapping). q.0) (done-injective _ r k);
        maps_eq =
            subst (λ q. back? q.1 ≡ some (record { from_value = some s; mapped = value_or l none }))
              (done-injective _ r k) (back?-append maps _);
      }
  reset_path-Ends (v ∷ vs) s t maps h =
      let (l, e, k) = >>=-eq-done (reset_ditype use_tbaa tbaa g ir chain walk path t v) _ h in
      let rest = reset_path-Ends vs s (value_or l t) _ k in
      record {
        before = rest.before;
        last = rest.last;
        resets = step l e rest.resets;
        last_eq = rest.last_eq;
        type_eq = rest.type_eq;
        maps_eq = rest.maps_eq;
      }

-- What final_type makes of the last mapping
abbrev final_of : Option IrMapping → Option Ptr
final_of none = none
final_of (some m) = elim m.mapped [ none ↦ none | some t ↦ some (some t) ]

pub final_type-last :
    (maps : List IrMapping) (v : Option ValueId) (m t : Ptr)
    → back? maps ≡ some (record { from_value = v; mapped = m })
    → final_type maps ≡ some t
    → (m ≡ t) × (has_value t ≡ true)
unfolding final_type
final_type-last maps v none t b h =
    let e : none ≡ some t = subst (λ q. final_of q ≡ some t) b h in cc
final_type-last maps v (some m) t b h =
    let k : some (some m) ≡ some t = subst (λ q. final_of q ≡ some t) b h in
    let e : some m ≡ t = cc in (e, subst (λ q. has_value q ≡ true) e refl)

-- The mapping of a value is that of the last type that the value was given, if it is one.
pub value_or-some :
    (last : Option Ptr) (t : Ptr) → value_or last none ≡ t → has_value t ≡ true → last ≡ some t
value_or-some none none e h = cc
value_or-some none (some t) e h = cc
value_or-some (some m) t e h = ap some e
