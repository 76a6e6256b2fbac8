-- ===== src/Dataflow/Flang.antt =====
-- What the searches for Fortran in lib/type/DataflowAnalysis.cpp find.
use llvm_dimeta.Base.{
  Bool-cases, Option-cases, ℕ, String, ◌≡◌, refl, inl, inr, Bool, true, false, some,
}
use llvm_dimeta.Ir.{ValueId, Ir}
use llvm_dimeta.ValuePath.{ValuePath, value}
use llvm_dimeta.DefUse.{users_of, traverse}
use llvm_dimeta.DefUse.Sound.{Chained, traverse_custom-keeps}
use llvm_dimeta.Dataflow.Fortran.{
  callee_name, is_fortran_helper, match_helper, passed_to_fortran_helper,
}

module _ (ir : Ir) (start : ValueId) where
  -- A chain of uses from the start to a call of a function of Flang's runtime library
  pub record ToHelper : Type 0 where
    pub path : ValuePath
    pub chained : Chained (match_helper ir) (λ p. true) (users_of ir) start path
    pub call_value : ValueId
    pub ends : value path ≡ some call_value
    pub name : String
    pub calls : callee_name (ir.value call_value) ≡ some name
    pub helper : is_fortran_helper name ≡ true

  match_helper-ToHelper :
      (p : ValuePath) (m : Bool)
      → Chained (match_helper ir) (λ p. true) (users_of ir) start p
      → (m ≡ true → ToHelper)
      → (match_helper ir p m).0 ≡ true
      → ToHelper
  unfolding match_helper
  match_helper-ToHelper p m c k h = elim (Option-cases (value p)) [
    | inl no_value ↦ k (rw (no_value, match_helper) at h)
    | inr (v, ends) ↦ elim (Option-cases (callee_name (ir.value v))) [
      | inl unknown ↦ k (rw unknown at (rw (ends, match_helper) at h))
      | inr (name, calls) ↦ elim (Bool-cases (is_fortran_helper name)) [
        | inl helper ↦ record {
          path = p;
          chained = c;
          call_value = v;
          ends = ends;
          name = name;
          calls = calls;
          helper = helper;
        }
        | inr foreign ↦ k (rw foreign at (rw calls at (rw (ends, match_helper) at h)))
      ]
    ]
  ]

  -- If passed_to_fortran_helper returns true, a chain of uses leads from the value to a call of a
  -- function of the runtime library, whose name starts with _FortranA and is not that of the output of
  -- a text.
  pub passed_to_fortran_helper-ToHelper :
      (fuel : ℕ) → passed_to_fortran_helper ir fuel start ≡ some true → ToHelper
  unfolding passed_to_fortran_helper traverse
  passed_to_fortran_helper-ToHelper fuel e =
      traverse_custom-keeps (match_helper ir) (λ p. true) (users_of ir) start
        (λ b. b ≡ true → ToHelper) (λ p m c k h. match_helper-ToHelper p m c k h) fuel false true
        (λ h. cc) e refl
