-- ===== src/RootType/Stored.antt =====
-- What find_type_root of lib/type/DIRootType.cpp finds first at an alloca: the argument that is stored to
-- it, or the path that leads to a type.
use llvm_dimeta.Base.{
  if◌then◌else◌, Option-cases, get_elem?, All, failed_assertion, Outcome, done, fault,
  done-injective, >>=-eq-done, ℕ, suc, ◌+◌, ◌≡◌, refl, sym, ap, ◌∙◌, ◌⊎◌, inl, inr, Bool, true,
  false, Option, none, some, some-injective, List, [], ◌∷◌, ◌++◌, arith,
}
use llvm_dimeta.Metadata.{NodeId, Variable, DiNode, local_variable, global_variable, Metadata, Ptr}
use llvm_dimeta.Ir.{ValueId, Subprogram, Value, store, argument, Ir}
use llvm_dimeta.ValuePath.{ValuePath}
use llvm_dimeta.Calls.{Finder}
use llvm_dimeta.RootType.{
  types_of, type_at_position, type_of_argument, first_found, type_of_variable, stored_argument,
}

-- `t` is found on a path of `ps`, and nothing on the paths before it.
abbrev pub FoundFirst : (ValuePath → Outcome (Option Ptr)) → List ValuePath → Ptr → Type 0
FoundFirst find_in ps t =
    (before : List ValuePath) × (p : ValuePath) × (after : List ValuePath) × (ps
      ≡ before ++ p ∷ after)
    × All (λ q. find_in q ≡ done none) before
    × (find_in p ≡ done (some t))

pub first_found-FoundFirst :
    (find_in : ValuePath → Outcome (Option Ptr)) (ps : List ValuePath) (t : Ptr)
    → first_found find_in ps ≡ done (some t)
    → FoundFirst find_in ps t
unfolding first_found
first_found-FoundFirst find_in [] t h = cc
first_found-FoundFirst find_in (p ∷ ps) t h =
    let (r, e, k) = >>=-eq-done (find_in p) _ h in
    elim (Option-cases r) [
      | inl n ↦
          let (before, q, after, same, none_before, found) =
            first_found-FoundFirst find_in ps t (rw n at k) in
          (p ∷ before, q, after, ap (λ l. p ∷ l) same, (e ∙ ap done n, none_before), found)
      | inr (x, s) ↦
          let z : done (some x) ≡ done (some t) = rw s at k in
          ([], p, ps, refl, tt, e ∙ ap done s ∙ z)
    ]

-- The value stores an argument.
abbrev pub stores_argument : Ir → ValueId → Bool
stores_argument ir u = elim (ir.value u) [
  | store s ↦ elim (ir.value s.value) [ argument a ↦ true | _ ↦ false ]
  | _ ↦ false
]

-- The type of the argument stands in the type array of its function's subprogram, behind that of the
-- result; an argument that returns a struct stands in the place of the result.
pub record ArgumentType (ir : Ir) (u : ValueId) (t : Ptr) : Type 0 where
  pub value_stored : ValueId
  pub pointer_stored : ValueId
  pub stores : ir.value u ≡ store (record { value = value_stored; pointer = pointer_stored })
  pub sub : Subprogram
  pub number : ℕ
  pub returns_struct : Bool
  pub is_argument :
      ir.value value_stored
      ≡ argument (record { subprogram = some sub; arg_no = number; struct_ret = returns_struct })
  pub at_position : get_elem? (types_of sub) (number + (if returns_struct then 0 else 1)) ≡ some t

-- The first of the users that stores an argument gives the type.
abbrev pub FirstArgument : Ir → List ValueId → Ptr → Type 0
FirstArgument ir users t =
    (before : List ValueId) × (u : ValueId) × (after : List ValueId) × (users ≡ before ++ u ∷ after)
    × All (λ x. stores_argument ir x ≡ false) before
    × ArgumentType ir u t

-- No user stores an argument.
abbrev pub NoArgument : Ir → List ValueId → Type 0
NoArgument ir users = All (λ x. stores_argument ir x ≡ false) users

type_at_position_lem :
    (sub : Subprogram) (i : ℕ) (t : Ptr)
    → type_at_position sub i ≡ done (some t)
    → get_elem? (types_of sub) i ≡ some t
unfolding type_at_position
type_at_position_lem sub i t h = elim (Option-cases (get_elem? (types_of sub) i)) [
  | inl n ↦ let f : fault failed_assertion ≡ done (some t) = rw (n, type_at_position) at h in cc
  | inr (u, s) ↦ s ∙ done-injective (some u) (some t) (rw (s, type_at_position) at h)
]

type_of_argument_lem :
    (sub : Subprogram) (k : ℕ) (b : Bool) (t : Ptr)
    → type_of_argument (some sub) k b ≡ done (some t)
    → get_elem? (types_of sub) (k + (if b then 0 else 1)) ≡ some t
unfolding type_of_argument
type_of_argument_lem sub k true t h =
    let e : k + 0 ≡ k = omega arith in rw e (type_at_position_lem sub k t h)
type_of_argument_lem sub k false t h =
    let e : k + 1 ≡ suc k = omega arith in rw e (type_at_position_lem sub (suc k) t h)

module _ (ir : Ir) (rest : Option (Outcome (Option Ptr))) where
  abbrev if_argument : Value → Option (Outcome (Option Ptr))
  if_argument x = elim x [
    | argument a ↦ some (type_of_argument a.subprogram a.arg_no a.struct_ret)
    | _ ↦ rest
  ]

  abbrev if_store : Value → Option (Outcome (Option Ptr))
  if_store x = elim x [ store s ↦ if_argument (ir.value s.value) | _ ↦ rest ]

  -- What one user gives: what the others give, or the type of the argument that it stores
  data UserCase (u : ValueId) (r : Option (Outcome (Option Ptr))) : Type 0 where
    passes : stores_argument ir u ≡ false → r ≡ rest → UserCase u r
    gives :
        (v p : ValueId) (sub : Option Subprogram) (k : ℕ) (b : Bool)
        → ir.value u ≡ store (record { value = v; pointer = p })
        → ir.value v ≡ argument (record { subprogram = sub; arg_no = k; struct_ret = b })
        → r ≡ some (type_of_argument sub k b)
        → UserCase u r

  argument-UserCase :
      (u v p : ValueId) (y : Value)
      → ir.value u ≡ store (record { value = v; pointer = p })
      → ir.value v ≡ y
      → UserCase u (if_argument y)
  argument-UserCase u v p (argument a) s e = gives v p a.subprogram a.arg_no a.struct_ret s e refl
  argument-UserCase u v p y s e = passes (rw (s, stores_argument) (rw e refl)) refl

  store-UserCase : (u : ValueId) (x : Value) → ir.value u ≡ x → UserCase u (if_store x)
  store-UserCase u (store s) e = argument-UserCase u s.value s.pointer (ir.value s.value) e refl
  store-UserCase u x e = passes (rw (e, stores_argument) refl) refl

pub stored_argument-FirstArgument :
    (g : Metadata) (ir : Ir) (finder : Finder) (users : List ValueId) (t : Ptr)
    → stored_argument g ir finder users ≡ some (done (some t))
    → FirstArgument ir users t
unfolding stored_argument
stored_argument-FirstArgument g ir finder [] t h = cc
stored_argument-FirstArgument g ir finder (u ∷ us) t h =
    elim (store-UserCase ir (stored_argument g ir finder us) u (ir.value u) refl) [
      | passes no_argument same ↦
          let (before, x, after, split, none_before, found) =
            stored_argument-FirstArgument g ir finder us t (sym same ∙ h) in
          (u ∷ before, x, after, ap (λ l. u ∷ l) split, (no_argument, none_before), found)
      | gives v p sub k b s e same ↦
          let given : type_of_argument sub k b ≡ done (some t) =
            some-injective (type_of_argument sub k b) (done (some t)) (sym same ∙ h) in
          elim (Option-cases sub) [
            | inl n ↦ let f : done none ≡ done (some t) = rw (n, type_of_argument) at given in cc
            | inr (x, is_some) ↦ (
              [],
              u,
              us,
              refl,
              tt,
              record {
                value_stored = v;
                pointer_stored = p;
                stores = s;
                sub = x;
                number = k;
                returns_struct = b;
                is_argument =
                    e
                    ∙ ap
                        (λ (q : Option Subprogram).
                          argument (record { subprogram = q; arg_no = k; struct_ret = b }))
                        is_some;
                at_position = type_of_argument_lem x k b t (rw is_some at given);
              },
            )
          ]
    ]

pub stored_argument-NoArgument :
    (g : Metadata) (ir : Ir) (finder : Finder) (users : List ValueId)
    → stored_argument g ir finder users ≡ none
    → NoArgument ir users
unfolding stored_argument
stored_argument-NoArgument g ir finder [] h = tt
stored_argument-NoArgument g ir finder (u ∷ us) h =
    elim (store-UserCase ir (stored_argument g ir finder us) u (ir.value u) refl) [
      | passes no_argument same ↦
          (no_argument, stored_argument-NoArgument g ir finder us (sym same ∙ h))
      | gives v p sub k b s e same ↦
          let f : some (type_of_argument sub k b) ≡ none = sym same ∙ h in cc
    ]

-- The node is a variable's, of this type.
abbrev pub IsTypeOf : Metadata → NodeId → Ptr → Type 0
IsTypeOf g n t =
    (v : Variable) × ((g n ≡ local_variable v) ⊎ (g n ≡ global_variable v)) × (v.type ≡ t)

pub type_of_variable-IsTypeOf :
    (g : Metadata) (ir : Ir) (finder : Finder) (n : NodeId) (d : DiNode) (t : Ptr)
    → g n ≡ d
    → type_of_variable g ir finder n ≡ done (some t)
    → IsTypeOf g n t
unfolding type_of_variable
type_of_variable-IsTypeOf g ir finder n (local_variable v) t e h = (
  v,
  inl e,
  some-injective v.type t (done-injective (some v.type) (some t) (rw (e, type_of_variable) at h)),
)
type_of_variable-IsTypeOf g ir finder n (global_variable v) t e h = (
  v,
  inr e,
  some-injective v.type t (done-injective (some v.type) (some t) (rw (e, type_of_variable) at h)),
)
type_of_variable-IsTypeOf g ir finder n d t e h =
    let f : fault failed_assertion ≡ done (some t) = rw (e, type_of_variable) at h in cc
