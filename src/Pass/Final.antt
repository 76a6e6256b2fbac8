-- ===== src/Pass/Final.antt =====
-- The final type that final_ditype of lib/type/Dimeta.cpp finds is shown as it is by lib/pass/DimetaPass.cpp.

use llvm_dimeta.Pass.{Line, ditype_tostring, base_type_of, line_of}
use llvm_dimeta.Base.{
  if◌then◌else◌, Option-cases, All, done, done-injective, >>=-eq-done, Post, >>=-Post_eq, ℕ, zero,
  suc, ◌≡◌, ap, subst, ◌∙◌, ◌⊎◌, inl, inr, false, Option, none, some,
}
use llvm_dimeta.Metadata.{NodeId, DerivedType, derived, Metadata, as_derived, Ptr}
use llvm_dimeta.DiUtil.{is_pointer}
use llvm_dimeta.Calls.{DimetaData, final_loop, final_ditype}

module _ (g : Metadata) where
  -- No derived type, or one without a base type
  abbrev pub IsLast : NodeId → Type 0
  IsLast n =
      (as_derived (g n) ≡ none)
      ⊎ (d : DerivedType) × (as_derived (g n) ≡ some d) × (d.base_type ≡ none)

  final_loop-IsLast :
      (fuel level : ℕ) (t : NodeId) (r : NodeId × ℕ)
      → final_loop g fuel level t ≡ done r
      → IsLast r.0
  unfolding final_loop
  final_loop-IsLast zero level t r e = cc
  final_loop-IsLast (suc fuel) level t r e = elim (Option-cases (as_derived (g t))) [
    | inl n ↦
        let same = done-injective (t, level) r (rw (n, final_loop) at e) in
        subst (λ (q : NodeId × ℕ). IsLast q.0) same (inl n)
    | inr (d, s) ↦ elim (Option-cases d.base_type) [
      | inl null ↦
          let e' = rw null at (rw (s, final_loop) at e) in
          let same : t ≡ r.0 = ap (λ (q : NodeId × ℕ). q.0) (done-injective _ r e') in
          subst IsLast same (inr (d, s, null))
      | inr (b, base) ↦
          final_loop-IsLast fuel (if is_pointer (derived d) false then suc level else level) b r
            (rw base at (rw (s, final_loop) at e))
    ]
  ]

  final_ditype-IsLast :
      (chain : ℕ) (entry : Option Ptr) (n : NodeId) (level : ℕ)
      → final_ditype g chain entry ≡ done (some (some n), level)
      → IsLast n
  unfolding final_ditype
  final_ditype-IsLast chain none n level e = cc
  final_ditype-IsLast chain (some none) n level e = cc
  final_ditype-IsLast chain (some (some t)) n level e =
      let (r, found, k) = >>=-eq-done (final_loop g chain 0 t) _ e in
      let same : r.0 ≡ n = cc in subst IsLast same (final_loop-IsLast chain 0 t r found)

  ditype_tostring-same :
      (fuel : ℕ) (t s : NodeId) → IsLast t → ditype_tostring g fuel t ≡ done s → t ≡ s
  unfolding ditype_tostring
  ditype_tostring-same zero t s h e = cc
  ditype_tostring-same (suc fuel) t s (inl n) e = done-injective t s (rw (n, ditype_tostring) at e)
  ditype_tostring-same (suc fuel) t s (inr (d, n, null)) e =
      done-injective t s (rw null at (rw (n, ditype_tostring) at e))

  -- The base type of the data is the final type of the entry type.
  abbrev pub HasFinal : ℕ → DimetaData → Type 0
  HasFinal chain d = (level : ℕ) × (final_ditype g chain d.entry_type ≡ done (d.base_type, level))

  base_type_of-some : (o : Option Ptr) (n : NodeId) → base_type_of g o ≡ done n → o ≡ some (some n)
  base_type_of-some none n e = cc
  base_type_of-some (some none) n e = cc
  base_type_of-some (some (some t)) n e = ap (λ (q : NodeId). some (some q)) (done-injective t n e)

  -- The line tells the base type of the data as it is.
  pub line_of-All :
      (P : Line → Type 0) (chain : ℕ) (line : NodeId → Line) (d : DimetaData)
      → HasFinal chain d
      → ((n : NodeId) → d.base_type ≡ some (some n) → IsLast n → P (line n))
      → Post (All P) (line_of g chain line (some d))
  unfolding line_of
  line_of-All P chain line d (level, final) h =
      >>=-Post_eq (All P) (base_type_of g d.base_type) _ λ base e.
        let b = base_type_of-some d.base_type base e in
        let last =
          final_ditype-IsLast chain d.entry_type base level
            (final ∙ ap (λ (o : Option Ptr). done (o, level)) b) in
        >>=-Post_eq (All P) (ditype_tostring g chain base) _ λ shown k. (
          subst (λ n. P (line n)) (ditype_tostring-same chain base shown last k) (h base b last),
          tt,
        )

  abbrev pub SomeFinal : ℕ → Option DimetaData → Type 0
  SomeFinal chain none = Unit
  SomeFinal chain (some d) = HasFinal chain d
