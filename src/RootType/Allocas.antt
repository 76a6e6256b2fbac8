-- ===== src/RootType/Allocas.antt =====
-- find_type_root of lib/type/DIRootType.cpp at a local variable: what it returns for an alloca.
use llvm_dimeta.Base.{
  Option-cases, Outcome, done, out_of_fuel, ℕ, suc, ◌≡◌, refl, ap, ◌∙◌, inl, inr, Option, none,
  some, some-injective, List,
}
use llvm_dimeta.Metadata.{NodeId, Metadata, Ptr}
use llvm_dimeta.Ir.{ValueId, Call, alloca, Ir}
use llvm_dimeta.ValuePath.{ValuePath, value}
use llvm_dimeta.Dataflow.{path_from_instruction}
use llvm_dimeta.Calls.{DimetaData, Finder}
use llvm_dimeta.RootType.{
  type_of_variable, declared_type, search_from_alloca, root_of, find_type_root,
}
use llvm_dimeta.RootType.Stored.{
  FoundFirst, first_found-FoundFirst, FirstArgument, NoArgument, stored_argument-FirstArgument,
  stored_argument-NoArgument, IsTypeOf, type_of_variable-IsTypeOf,
}

module _ (g : Metadata) (ir : Ir) (finder : Finder) (fuel : ℕ)
    (type_for : ValueId → Call → Outcome (Option DimetaData)) where
  -- The type of the alloca's variable; without a variable that of the first argument that is stored to it;
  -- without either what the first of the paths from it leads to
  pub data AllocaType (depth : ℕ) (v : ValueId) (t : Ptr) : Type 0 where
    of_variable :
        (n : NodeId) → finder.find_local_variable v ≡ some n → IsTypeOf g n t → AllocaType depth v t
    of_argument :
        finder.find_local_variable v ≡ none → FirstArgument ir (ir.users v) t → AllocaType depth v t
    of_path :
        finder.find_local_variable v ≡ none
        → NoArgument ir (ir.users v)
        → (paths : List ValuePath) → path_from_instruction ir fuel v ≡ some paths
        → FoundFirst (find_type_root g ir finder fuel type_for depth none) paths t
        → AllocaType depth v t

  declared-AllocaType :
      (depth : ℕ) (v : ValueId) (t : Ptr)
      → declared_type g ir finder v ≡ some (done (some t))
      → AllocaType depth v t
  unfolding declared_type
  declared-AllocaType depth v t h = elim (Option-cases (finder.find_local_variable v)) [
    | inl n ↦
        of_argument n
          (stored_argument-FirstArgument g ir finder (ir.users v) t (rw (n, declared_type) at h))
    | inr (n, s) ↦ of_variable n s (
        type_of_variable-IsTypeOf g ir finder n (g n) t refl (
          some-injective (type_of_variable g ir finder n) (done (some t))
            (rw (s, declared_type) at h)))
  ]

  undeclared :
      (v : ValueId)
      → declared_type g ir finder v ≡ none
      → (finder.find_local_variable v ≡ none) × NoArgument ir (ir.users v)
  unfolding declared_type
  undeclared v h = elim (Option-cases (finder.find_local_variable v)) [
    | inl n ↦ (n, stored_argument-NoArgument g ir finder (ir.users v) (rw (n, declared_type) at h))
    | inr (n, s) ↦
        let f : some (type_of_variable g ir finder n) ≡ none = rw (s, declared_type) at h in cc
  ]

  search_from_alloca-FoundFirst :
      (rec : ValuePath → Outcome (Option Ptr)) (v : ValueId) (t : Ptr)
      → search_from_alloca g ir finder fuel rec type_for v ≡ done (some t)
      → (paths : List ValuePath) × (path_from_instruction ir fuel v ≡ some paths)
        × FoundFirst rec paths t
  unfolding search_from_alloca
  search_from_alloca-FoundFirst rec v t h = elim (Option-cases (path_from_instruction ir fuel v)) [
    | inl n ↦ let b : out_of_fuel ≡ done (some t) = rw (n, search_from_alloca) at h in cc
    | inr (paths, s) ↦
        (paths, s, first_found-FoundFirst rec paths t (rw (s, search_from_alloca) at h))
  ]

  -- A type that find_type_root returns for a path that ends in an alloca is that of the variable that the
  -- finder names for the alloca. Without a variable it is that of the argument which the first of the
  -- alloca's users that stores an argument stores: the entry of the subprogram's type array at the
  -- argument's number, plus one unless the argument returns a struct. Without such a user it is what
  -- find_type_root returns for the first path from the alloca for which it returns a type.
  pub find_type_root-AllocaType :
      (depth : ℕ) (initial : Option ValueId) (path : ValuePath) (v : ValueId) (t : Ptr)
      → value path ≡ some v
      → ir.value v ≡ alloca
      → find_type_root g ir finder fuel type_for (suc depth) initial path ≡ done (some t)
      → AllocaType depth v t
  unfolding find_type_root root_of
  find_type_root-AllocaType depth initial path v t ends is_alloca h =
      elim (Option-cases (declared_type g ir finder v)) [
        | inl n ↦
            let rec = find_type_root g ir finder fuel type_for depth none in
            let (paths, walked, found) =
              search_from_alloca-FoundFirst rec v t
                (rw (ends, is_alloca, n, find_type_root, root_of) at h) in
            let (no_variable, no_argument) = undeclared v n in
            of_path no_variable no_argument paths walked found
        | inr (r, s) ↦
            let z : r ≡ done (some t) = rw (ends, is_alloca, s, find_type_root, root_of) at h in
            declared-AllocaType depth v t (s ∙ ap some z)
      ]
