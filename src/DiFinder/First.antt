-- ===== src/DiFinder/First.antt =====
-- The variable that lib/type/DIFinder.cpp finds for a value is one that a debug record describes by it.
use llvm_dimeta.Base.{
  ==_iff, Bool-cases, ◌≡◌, refl, sym, ap, ◌∙◌, ◌⊎◌, inl, inr, true, false, Option, none, some, List,
  [], ◌∷◌,
}
use llvm_dimeta.Metadata.{NodeId}
use llvm_dimeta.Ir.{ValueId, Ir}
use llvm_dimeta.DiFinder.{
  DbgVariable, DebugRecords, equals, get_alloca_for, find_record, find_in_instructions,
  find_intrinsic, find_di_var, is_cast_or_load, find_in_users, find_local_variable,
}

-- Some entry has the property.
abbrev pub AnyOf {ℓ} : {A : Type ℓ} → (A → Type 0) → List A → Type 0
AnyOf P [] = ⊥
AnyOf P (x ∷ xs) = P x ⊎ AnyOf P xs

equals_lem : (o : Option ValueId) (v : ValueId) → equals o v ≡ true → o ≡ some v
equals_lem none v h = cc
equals_lem (some u) v h = ap some ((==_iff u v).0 h)

equals_self : (v : ValueId) → equals (some v) v ≡ true
equals_self v = (==_iff v v).1 refl

module _ (ir : Ir) (records : DebugRecords) where
  -- A record of the value's function has the value as its address, and the variable.
  abbrev pub DescribedBy : ValueId → NodeId → DbgVariable → Type 0
  DescribedBy v n r = (get_alloca_for ir records r ≡ some v) × (r.variable ≡ n)

  abbrev pub Describes : ValueId → NodeId → Type 0
  Describes v n =
      AnyOf (λ i. AnyOf (DescribedBy v n) (records.dbg_records i)) (records.instructions v)

  -- What a search in records returns: one that describes the value, or that there is none
  abbrev FoundIn : ValueId → List DbgVariable → Option DbgVariable → Type 0
  FoundIn v rs none = (n : NodeId) → AnyOf (DescribedBy v n) rs → ⊥
  FoundIn v rs (some r) = AnyOf (DescribedBy v r.variable) rs

  later :
      (v : ValueId) (r : DbgVariable) (rs : List DbgVariable) (found : Option DbgVariable)
      → equals (get_alloca_for ir records r) v ≡ false
      → FoundIn v rs found
      → FoundIn v (r ∷ rs) found
  later v r rs (some d) differs h = inr h
  later v r rs none differs h = λ n k. elim k [
    | inl here ↦
        let b : true ≡ false = sym (equals_self v) ∙ sym (ap (λ o. equals o v) here.0) ∙ differs in
        cc
    | inr there ↦ h n there
  ]

  find_record-FoundIn :
      (v : ValueId) (rs : List DbgVariable) → FoundIn v rs (find_record ir records v rs)
  unfolding find_record
  find_record-FoundIn v [] = λ n h. h
  find_record-FoundIn v (r ∷ rs) = elim (Bool-cases (equals (get_alloca_for ir records r) v)) [
    | inl here ↦
        rw (here, find_record) (inl (equals_lem (get_alloca_for ir records r) v here, refl))
    | inr differs ↦
        rw (differs, find_record)
          (later v r rs (find_record ir records v rs) differs (find_record-FoundIn v rs))
  ]

  abbrev FoundAt : ValueId → List ValueId → Option DbgVariable → Type 0
  FoundAt v is none =
      (n : NodeId) → AnyOf (λ i. AnyOf (DescribedBy v n) (records.dbg_records i)) is → ⊥
  FoundAt v is (some r) = AnyOf (λ i. AnyOf (DescribedBy v r.variable) (records.dbg_records i)) is

  at_instruction :
      (v i : ValueId) (is : List ValueId) (found rest : Option DbgVariable)
      → FoundIn v (records.dbg_records i) found
      → FoundAt v is rest
      → FoundAt v (i ∷ is) (elim found [ some r ↦ some r | none ↦ rest ])
  at_instruction v i is (some r) rest h k = inl h
  at_instruction v i is none (some r) h k = inr k
  at_instruction v i is none none h k =
      λ n q. elim q [ inl here ↦ h n here | inr there ↦ k n there ]

  find_in_instructions-FoundAt :
      (v : ValueId) (is : List ValueId) → FoundAt v is (find_in_instructions ir records v is)
  unfolding find_in_instructions
  find_in_instructions-FoundAt v [] = λ n h. h
  find_in_instructions-FoundAt v (i ∷ is) =
      at_instruction v i is (find_record ir records v (records.dbg_records i))
        (find_in_instructions ir records v is) (find_record-FoundIn v (records.dbg_records i))
        (find_in_instructions-FoundAt v is)

  -- What find_di_var returns: a variable that describes the value, or that there is none
  abbrev pub FoundVariable : ValueId → Option NodeId → Type 0
  FoundVariable v none = (n : NodeId) → Describes v n → ⊥
  FoundVariable v (some n) = Describes v n

  by_record :
      (v : ValueId) (found : Option DbgVariable)
      → FoundAt v (records.instructions v) found
      → FoundVariable v (elim found [ none ↦ none | some r ↦ some r.variable ])
  by_record v none h = h
  by_record v (some r) h = h

  find_di_var-FoundVariable : (v : ValueId) → FoundVariable v (find_di_var ir records v)
  unfolding find_di_var find_intrinsic
  find_di_var-FoundVariable v =
      by_record v (find_in_instructions ir records v (records.instructions v))
        (find_in_instructions-FoundAt v (records.instructions v))

  -- A user that is a bit cast or a load, and is described
  abbrev pub DescribedUser : NodeId → ValueId → Type 0
  DescribedUser n u = (is_cast_or_load ir records (ir.value u) ≡ true) × Describes u n

  abbrev pub FoundUser : List ValueId → Option NodeId → Type 0
  FoundUser us none = (n : NodeId) → AnyOf (DescribedUser n) us → ⊥
  FoundUser us (some n) = AnyOf (DescribedUser n) us

  by_user :
      (u : ValueId) (us : List ValueId)
      → is_cast_or_load ir records (ir.value u) ≡ true
      → (found rest : Option NodeId) → FoundVariable u found
      → FoundUser us rest
      → FoundUser (u ∷ us) (elim found [ some n ↦ some n | none ↦ rest ])
  by_user u us reads (some n) rest h k = inl (reads, h)
  by_user u us reads none (some n) h k = inr k
  by_user u us reads none none h k = λ n q. elim q [ inl here ↦ h n here.1 | inr there ↦ k n there ]

  past_user :
      (u : ValueId) (us : List ValueId)
      → is_cast_or_load ir records (ir.value u) ≡ false
      → (rest : Option NodeId) → FoundUser us rest
      → FoundUser (u ∷ us) rest
  past_user u us differs (some n) k = inr k
  past_user u us differs none k = λ n q. elim q [
    | inl here ↦ let b : true ≡ false = sym here.0 ∙ differs in cc
    | inr there ↦ k n there
  ]

  find_in_users-FoundUser : (us : List ValueId) → FoundUser us (find_in_users ir records us)
  unfolding find_in_users
  find_in_users-FoundUser [] = λ n h. h
  find_in_users-FoundUser (u ∷ us) = elim (Bool-cases (is_cast_or_load ir records (ir.value u))) [
    | inl reads ↦
        rw (reads, find_in_users)
          (by_user u us reads (find_di_var ir records u) (find_in_users ir records us)
            (find_di_var-FoundVariable u) (find_in_users-FoundUser us))
    | inr differs ↦
        rw (differs, find_in_users)
          (past_user u us differs (find_in_users ir records us) (find_in_users-FoundUser us))
  ]

  -- What find_local_variable returns: a variable that a record describes by the value or, where no record
  -- does, by a user of it that is a bit cast or a load; nothing only where there is none of either.
  abbrev pub LocalVariable : ValueId → Option NodeId → Type 0
  LocalVariable v none =
      ((n : NodeId) → Describes v n → ⊥) × ((n : NodeId) → AnyOf (DescribedUser n) (ir.users v) → ⊥)
  LocalVariable v (some n) =
      Describes v n ⊎ ((m : NodeId) → Describes v m → ⊥) × AnyOf (DescribedUser n) (ir.users v)

  by_value :
      (v : ValueId) (found rest : Option NodeId)
      → FoundVariable v found
      → FoundUser (ir.users v) rest
      → LocalVariable v (elim found [ some n ↦ some n | none ↦ rest ])
  by_value v (some n) rest h k = inl h
  by_value v none (some n) h k = inr (h, k)
  by_value v none none h k = (h, k)

  -- find_local_variable returns a variable that a record of the function describes by the value or, if no
  -- record describes the value, by a user of it that is a bit cast or a load. It returns none only if
  -- there is no such record.
  pub find_local_variable-LocalVariable :
      (v : ValueId) → LocalVariable v (find_local_variable ir records v)
  unfolding find_local_variable
  find_local_variable-LocalVariable v =
      by_value v (find_di_var ir records v) (find_in_users ir records (ir.users v))
        (find_di_var-FoundVariable v) (find_in_users-FoundUser (ir.users v))
