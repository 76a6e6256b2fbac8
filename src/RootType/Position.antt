-- ===== src/RootType/Position.antt =====
-- The position of a value among the arguments of a call, in lib/type/DIRootType.cpp, and the type of
-- the parameter there.
use llvm_dimeta.Base.{
  ◌==◌, ==_iff, Bool-cases, Option-cases, get_elem?, failed_assertion, done, fault, done-injective,
  ℕ, zero, suc, ◌<◌, ◌≡◌, ap, subst, ◌∙◌, ◌≢◌, inl, inr, true, false, Option, none, some,
  some-injective, List, [], ◌∷◌, arith,
}
use llvm_dimeta.Metadata.{Ptr}
use llvm_dimeta.Ir.{ValueId, Subprogram, Callee, Call}
use llvm_dimeta.ValuePath.{ValuePath, previous_value}
use llvm_dimeta.RootType.{find_argument, types_of, type_at_position, type_of_call_argument}

-- Position `k` is the first that holds `a`.
abbrev pub FirstAt : List ValueId → ValueId → ℕ → Type 0
FirstAt args a k = (get_elem? args k ≡ some a) × ((i : ℕ) → i < k → get_elem? args i ≢ some a)

none_before :
    (x : ValueId) (xs : List ValueId) (a : ValueId) {j : ℕ}
    → x ≢ a
    → ((i : ℕ) → i < j → get_elem? xs i ≢ some a)
    → (i : ℕ) → i < suc j
    → get_elem? (x ∷ xs) i ≢ some a
none_before x xs a differs before zero l e = differs (some-injective x a e)
none_before x xs a differs before (suc i) l e = before i (omega arith) e

find_argument-FirstAt :
    (args : List ValueId) (a : ValueId) {k : ℕ} → find_argument args a ≡ some k → FirstAt args a k
unfolding find_argument
find_argument-FirstAt [] a h = cc
find_argument-FirstAt (x ∷ xs) a {k} h = elim (Bool-cases (x == a)) [
  | inl same ↦
      let e : x ≡ a = (==_iff x a).0 same in
      let z : some 0 ≡ some k = rw same at h in
      subst (FirstAt (x ∷ xs) a) (some-injective 0 k z) (ap some e, λ i l. absurd (omega arith))
  | inr differs ↦
      let apart : x ≢ a = λ e. (let b : false ≡ true = rw differs at ((==_iff x a).1 e) in cc) in
      elim (Option-cases (find_argument xs a)) [
        | inl n ↦ let b : none ≡ some k = rw (differs, n) at h in cc
        | inr (j, s) ↦
            let z : some (suc j) ≡ some k = rw (differs, s) at h in
            let (holds, before) = find_argument-FirstAt xs a s in
            subst (FirstAt (x ∷ xs) a) (some-injective (suc j) k z)
              (holds, none_before x xs a apart before)
      ]
]

type_at_position-eq-done :
    (sub : Subprogram) (i : ℕ) {t : Option Ptr}
    → type_at_position sub i ≡ done t
    → get_elem? (types_of sub) i ≡ t
unfolding type_at_position
type_at_position-eq-done sub i {t} h = elim (Option-cases (get_elem? (types_of sub) i)) [
  | inl n ↦ let b : fault failed_assertion ≡ done t = rw (n, type_at_position) at h in cc
  | inr (p, s) ↦
      let z : done (some p) ≡ done t = rw (s, type_at_position) at h in
      s ∙ done-injective (some p) t z
]

-- If type_of_call_argument returns a type, the value before the end of the path is an argument of the
-- call, and the type is that of the called subprogram after the result, at the first position of the value
-- among the arguments.
pub type_of_call_argument-FirstAt :
    (path : ValuePath) (called_f : Callee) (c : Call) (t : Ptr)
    → type_of_call_argument path called_f c ≡ done (some t)
    → (a : ValueId) × (k : ℕ) × (sub : Subprogram) × (previous_value path ≡ some a)
      × FirstAt c.arguments a k
      × (called_f.subprogram ≡ some sub)
      × (get_elem? (types_of sub) (suc k) ≡ some t)
unfolding type_of_call_argument
type_of_call_argument-FirstAt path called_f c t h = elim (Option-cases (previous_value path)) [
  | inl n ↦
      let b : fault failed_assertion ≡ done (some t) = rw (n, type_of_call_argument) at h in cc
  | inr (a, p) ↦ elim (Option-cases (find_argument c.arguments a)) [
    | inl n ↦ let b : done none ≡ done (some t) = rw (p, n, type_of_call_argument) at h in cc
    | inr (k, s) ↦ elim (Option-cases called_f.subprogram) [
      | inl n ↦ let b : done none ≡ done (some t) = rw (p, s, n, type_of_call_argument) at h in cc
      | inr (sub, e) ↦ (
        a,
        k,
        sub,
        p,
        find_argument-FirstAt c.arguments a s,
        e,
        type_at_position-eq-done sub (suc k) (rw (p, s, e, type_of_call_argument) at h),
      )
    ]
  ]
]
