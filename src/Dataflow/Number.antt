-- ===== src/Dataflow/Number.antt =====
-- What get_as_int of lib/type/DataflowAnalysis.cpp returns.
use llvm_dimeta.Base.{
  Option-cases, has_value, Outcome, done, done-injective, >>=-eq-done, ◌≡◌, refl, sym, ap, ◌∙◌,
  subst, inl, inr, Bool, true, false, Option, none, some, ℕ,
}
use llvm_dimeta.Ir.{ValueId, Ir}
use llvm_dimeta.ValuePath.{ValuePath, value}
use llvm_dimeta.DefUse.{traverse_custom}
use llvm_dimeta.DefUse.Sound.{Chained}
use llvm_dimeta.DefUse.Covered.{Reach}
use llvm_dimeta.DefUse.First.{at_hit, no_hit, Cancels, traverse_custom-HitOrNone}
use llvm_dimeta.Dataflow.{malloc_backtrack_search, backtrack_operands}
use llvm_dimeta.Dataflow.Complete.{operands}
use llvm_dimeta.Dataflow.Fortran.{
  to_int, as_global, minus_one, read_initializer, match_global, value_or_minus_one, get_as_int,
}

module _ (ir : Ir) (start : ValueId) where
  abbrev pub is_global : ValueId → Bool
  is_global v = has_value (as_global (ir.value v))

  -- A chain of operands from the start leads to a global variable with this initializer.
  pub record ToGlobal (initializer : ValueId) : Type 0 where
    pub path : ValuePath
    pub chained : Chained (match_global ir) (λ p. true) (malloc_backtrack_search ir) start path
    pub global_value : ValueId
    pub ends : value path ≡ some global_value
    pub is_initial : as_global (ir.value global_value) ≡ some (some initializer)

  -- What the search yields: the number in the initializer of a global variable, nothing for an initializer
  -- that is no constant integer, or nothing since no value that the operands lead to is a global variable
  pub data Initial : Option ℕ → Type 0 where
    number :
        {n : ℕ} (i : ValueId) → ToGlobal i → to_int (ir.value i) ≡ done (some n) → Initial (some n)
    no_number : (i : ValueId) → ToGlobal i → to_int (ir.value i) ≡ done none → Initial none
    no_global :
        ((v : ValueId) → Reach (operands ir) (λ u. false) start v → is_global v ≡ false)
        → Initial none

  -- Without a number the result is -1.
  pub data IsNumber (n : ℕ) : Type 0 where
    constant : to_int (ir.value start) ≡ done (some n) → IsNumber n
    initial : to_int (ir.value start) ≡ done none → Initial (some n) → IsNumber n
    unknown : to_int (ir.value start) ≡ done none → Initial none → n ≡ minus_one → IsNumber n

  match_global-Cancels :
      Cancels (match_global ir) (malloc_backtrack_search ir) (operands ir) is_global start
  unfolding match_global malloc_backtrack_search
  match_global-Cancels = record {
    cancels = λ p v m e h. elim (Option-cases (as_global (ir.value v))) [
      | inl n ↦ let f : false ≡ true = rw n at h in cc
      | inr (i, s) ↦ rw (e, match_global) (rw s)
    ];
    passes = λ p v m e h. elim (Option-cases (as_global (ir.value v))) [
      | inl n ↦ rw (e, match_global) (rw n (refl, refl))
      | inr (i, s) ↦ let f : true ≡ false = rw s at h in cc
    ];
    directs = λ p v e.
        rw (e, malloc_backtrack_search)
          (elim (Option-cases (backtrack_operands ir (ir.value v))) [
            | inl n ↦ inr (n, rw (n, operands))
            | inr (vs, s) ↦ inl (rw (s, operands))
          ]);
  }

  read_initializer-Initial :
      (i : Option ValueId) (path : ValuePath) (v : ValueId) (r : Option ℕ)
      → Chained (match_global ir) (λ p. true) (malloc_backtrack_search ir) start path
      → value path ≡ some v
      → as_global (ir.value v) ≡ some i
      → read_initializer ir i none ≡ done r
      → Initial r
  unfolding read_initializer
  read_initializer-Initial none path v r c ends s h = cc
  read_initializer-Initial (some i) path v r c ends s h =
      let g : ToGlobal i = record {
        path = path;
        chained = c;
        global_value = v;
        ends = ends;
        is_initial = s;
      } in
      let (found, e, k) = >>=-eq-done (to_int (ir.value i)) _ h in
      elim (Option-cases found) [
        | inl n ↦ subst Initial (done-injective none r (rw n at k)) (no_number i g (e ∙ ap done n))
        | inr (a, s') ↦
            subst Initial (done-injective (some a) r (rw s' at k)) (number i g (e ∙ ap done s'))
      ]

  search-Initial :
      (fuel : ℕ) (m : Outcome (Option ℕ)) (r : Option ℕ)
      → traverse_custom
          (match_global ir)
          (λ p. true)
          (malloc_backtrack_search ir)
          fuel
          start
          (done none)
        ≡ some m
      → m ≡ done r
      → Initial r
  unfolding match_global
  search-Initial fuel m r e d =
      elim (traverse_custom-HitOrNone (match_global ir) (malloc_backtrack_search ir) (operands ir)
        is_global start match_global-Cancels fuel (done none) m e) [
          | no_hit same quiet ↦
              subst Initial (done-injective none r (sym same ∙ d)) (no_global quiet)
          | at_hit p v c ends h same ↦ elim (Option-cases (as_global (ir.value v))) [
            | inl n ↦ let f : false ≡ true = rw n at h in cc
            | inr (i, s) ↦
                read_initializer-Initial i p v r c ends s
                  (rw s at (rw (ends, match_global) at (sym same ∙ d)))
          ]
        ]

  value_or_minus_one-IsNumber :
      (fuel n : ℕ) (s : Option (Outcome (Option ℕ)))
      → to_int (ir.value start) ≡ done none
      → traverse_custom
          (match_global ir)
          (λ p. true)
          (malloc_backtrack_search ir)
          fuel
          start
          (done none)
        ≡ s
      → value_or_minus_one ir s ≡ done n
      → IsNumber n
  value_or_minus_one-IsNumber fuel n none t e h = cc
  value_or_minus_one-IsNumber fuel n (some m) t e h =
      let (r, d, k) = >>=-eq-done m _ h in
      let found = search-Initial fuel m r e d in
      elim (Option-cases r) [
        | inl none_found ↦
            unknown t (subst Initial none_found found)
              (sym (done-injective minus_one n (rw none_found at k)))
        | inr (a, s) ↦
            initial t (subst Initial (s ∙ ap some (done-injective a n (rw s at k))) found)
      ]

  -- A number that get_as_int returns is the value itself, if that is a constant integer. Else it is the
  -- constant integer that a global variable, which a chain of operands leads to, is initialized with; or it
  -- is -1, and then the initializer of such a variable is no constant integer, or none of the values that
  -- chains of operands lead to is a global variable.
  pub get_as_int-IsNumber : (fuel n : ℕ) → get_as_int ir fuel start ≡ done n → IsNumber n
  unfolding get_as_int
  get_as_int-IsNumber fuel n h =
      let (c, t, k) = >>=-eq-done (to_int (ir.value start)) _ h in
      elim (Option-cases c) [
        | inl variable ↦
            value_or_minus_one-IsNumber fuel n _ (t ∙ ap done variable) refl (rw variable at k)
        | inr (a, s) ↦
            constant
              (t ∙ ap done s ∙ ap (λ (q : ℕ). done (some q)) (done-injective a n (rw s at k)))
      ]
