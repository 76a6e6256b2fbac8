-- ===== src/RootType.antt =====
-- lib/type/DIRootType.cpp: the type of the value that a path ends in.
pub mod Position
pub mod Allocas
pub mod Stored
use llvm_dimeta.Base.{
  ◌==◌, if◌then◌else◌, has_value, get_elem?, failed_assertion, Outcome, done, fault, out_of_fuel,
  ◌>>=◌, ◌>>◌, index, ℕ, zero, suc, Bool, false, Option, none, some, List, [], ◌∷◌, str_eq,
}
use llvm_dimeta.Metadata.{NodeId, local_variable, global_variable, Metadata, Ptr}
use llvm_dimeta.Ir.{
  ValueId, Subprogram, Callee, Call, alloca, store, gep_inst, call, ret, argument, global_var, Ir,
}
use llvm_dimeta.ValuePath.{ValuePath, path_contains, value, previous_value, start_value}
use llvm_dimeta.MemoryOps.{alloc_kind}
use llvm_dimeta.Dataflow.{is_memcpy, as_store, path_from_instruction, path_from_value}
use llvm_dimeta.Calls.{DimetaData, Finder}

-- llvm::find_if over the arguments of a call: the position of the first that is the value
unfoldable pub find_argument : List ValueId → ValueId → Option ℕ
find_argument [] a = none
find_argument (x ∷ xs) a =
    if x == a then some 0 else elim (find_argument xs a) [ none ↦ none | some i ↦ some (suc i) ]

-- DITypeRefArray: without an array there are no types. The subprogram has a subroutine type.
abbrev pub types_of : Subprogram → List Ptr
types_of sub = elim sub.type_array [ none ↦ [] | some types ↦ types ]

-- The type at a position of the type array of a subprogram, which an assertion compares with its size
unfoldable pub type_at_position : Subprogram → ℕ → Outcome (Option Ptr)
type_at_position sub i = elim (get_elem? (types_of sub) i) [
  | none ↦ fault failed_assertion
  | some t ↦ done (some t)
]

-- type_of_argument: an argument that returns a struct has the place of the result.
unfoldable pub type_of_argument : Option Subprogram → ℕ → Bool → Outcome (Option Ptr)
unfolding type_at_position
type_of_argument none arg_no struct_ret = done none
type_of_argument (some sub) arg_no struct_ret =
    type_at_position sub (if struct_ret then arg_no else suc arg_no)

unfoldable pub type_of_call_argument : ValuePath → Callee → Call → Outcome (Option Ptr)
unfolding find_argument type_at_position
type_of_call_argument path called_f c = elim (previous_value path) [
  | none ↦ fault failed_assertion
  | some a ↦ elim (find_argument c.arguments a) [
    | none ↦ done none
    | some arg_num ↦ elim called_f.subprogram [
      | none ↦ done none
      | some sub ↦ type_at_position sub (suc arg_num)
    ]
  ]
]

-- The loops over the paths: the first type that one leads to
unfoldable pub first_found :
    (ValuePath → Outcome (Option Ptr)) → List ValuePath → Outcome (Option Ptr)
first_found find_in [] = done none
first_found find_in (p ∷ ps) = do
  t ← find_in p
  elim t [ some x ↦ done (some x) | none ↦ first_found find_in ps ]

module _ (g : Metadata) (ir : Ir) (finder : Finder) where
  -- The type of a variable; its node is a variable's.
  unfoldable pub type_of_variable : NodeId → Outcome (Option Ptr)
  type_of_variable n = elim (g n) [
    | local_variable v ↦ done (some v.type)
    | global_variable v ↦ done (some v.type)
    | _ ↦ fault failed_assertion
  ]

  abbrev pub is_named_this : NodeId → Bool
  is_named_this n = elim (g n) [ local_variable v ↦ str_eq v.name "this" | _ ↦ false ]

  unfoldable pub get_return_type_of : Callee → ValueId → Outcome (Option Ptr)
  unfolding type_at_position type_of_variable
  get_return_type_of called_f v = elim called_f.subprogram [
    | some sub ↦ type_at_position sub 0
    | none ↦ elim (finder.find_local_variable v) [
      | none ↦ done none
      | some n ↦ if is_named_this n then done none else type_of_variable n
    ]
  ]

  unfoldable pub type_of_store_to_call : ValuePath → Callee → ValueId → Outcome (Option Ptr)
  unfolding get_return_type_of
  type_of_store_to_call path called_f v = elim (start_value path) [
    | none ↦ done none
    | some leaf ↦ elim (as_store (ir.value leaf)) [
      | none ↦ done none
      | some pointer ↦ get_return_type_of called_f v
    ]
  ]

  unfoldable pub type_of_global : Option NodeId → Outcome (Option Ptr)
  unfolding type_of_variable
  type_of_global none = done none
  type_of_global (some n) = type_of_variable n

  -- The first user of an alloca that stores an argument: the type of the argument
  unfoldable pub stored_argument : List ValueId → Option (Outcome (Option Ptr))
  unfolding type_of_argument
  stored_argument [] = none
  stored_argument (u ∷ us) =
      let rest = stored_argument us in
      elim (ir.value u) [
        | store s ↦ elim (ir.value s.value) [
          | argument a ↦ some (type_of_argument a.subprogram a.arg_no a.struct_ret)
          | _ ↦ rest
        ]
        | _ ↦ rest
      ]

  -- What is known of an alloca without a search: the type of its variable or of an argument stored to it
  unfoldable pub declared_type : ValueId → Option (Outcome (Option Ptr))
  unfolding type_of_variable stored_argument
  declared_type alloca_value = elim (finder.find_local_variable alloca_value) [
    | some n ↦ some (type_of_variable n)
    | none ↦ stored_argument (ir.users alloca_value)
  ]

  -- `rec` is find_type_root without a call, and `type_for` that of a call in lib/type/Dimeta.cpp.
  module _ (fuel : ℕ) (rec : ValuePath → Outcome (Option Ptr))
      (type_for : ValueId → Call → Outcome (Option DimetaData)) where
    unfoldable pub search_from_alloca : ValueId → Outcome (Option Ptr)
    unfolding path_from_instruction first_found
    search_from_alloca v = elim (path_from_instruction ir fuel v) [
      | none ↦ out_of_fuel
      | some paths ↦ first_found rec paths
    ]

    -- The part for memcpy, of the source `v`: `some r` returns r, none goes on.
    unfoldable pub type_through_memcpy : ValuePath → ValueId → Outcome (Option (Option Ptr))
    unfolding declared_type search_from_alloca type_of_global first_found path_from_value
    type_through_memcpy path v = elim (ir.value v) [
      | alloca ↦ elim (declared_type v) [
        | some r ↦ do t ← r; done (some t)
        | none ↦
            if path_contains path v
            then done (some none)
            else do t ← search_from_alloca v; done (elim t [ none ↦ none | some x ↦ some (some x) ])
      ]
      | global_var gv ↦ do t ← type_of_global gv.variable; done (some t)
      | gep_inst op ↦ elim (path_from_value ir fuel v) [
        | none ↦ out_of_fuel
        | some paths ↦ do
          t ← first_found (finder.find_type none) paths
          done (elim t [ none ↦ none | some x ↦ some (some x) ])
      ]
      | _ ↦ done none
    ]

    -- After the part for memcpy
    unfoldable pub type_of_call :
        Option ValueId → ValuePath → ValueId → Call → Callee → Outcome (Option Ptr)
    unfolding type_of_store_to_call type_of_call_argument get_return_type_of
    type_of_call initial path v c called_f =
        if has_value (alloc_kind called_f.name)
        then (if elim initial [ none ↦ false | some i ↦ v == i ]
            then done none
            else (do r ← type_for v c; done (elim r [ none ↦ none | some d ↦ d.entry_type ])))
        else (do
          stored ← type_of_store_to_call path called_f v
          elim stored [
            | some t ↦ done (some t)
            | none ↦
                if has_value (previous_value path)
                then type_of_call_argument path called_f c
                else get_return_type_of called_f v
          ])

    unfoldable pub root_of_call :
        Option ValueId → ValuePath → ValueId → Call → Bool → Outcome (Option Ptr)
    unfolding type_through_memcpy type_of_call
    root_of_call initial path v c copies = elim c.callee [
      | none ↦ done none
      | some called_f ↦ do
        through ←
            (if copies then (do a ← index c.arguments 1; type_through_memcpy path a) else done none)
        elim through [ some t ↦ done t | none ↦ type_of_call initial path v c called_f ]
    ]

    unfoldable pub root_of : Option ValueId → ValuePath → ValueId → Outcome (Option Ptr)
    unfolding declared_type search_from_alloca root_of_call type_of_global type_of_argument
    root_of initial path v = elim (ir.value v) [
      | ret sub ↦ elim sub [
        | none ↦ done none
        | some s ↦ done (elim (types_of s) [ [] ↦ none | t ∷ ts ↦ some t ])
      ]
      | alloca ↦ elim (declared_type v) [ some r ↦ r | none ↦ search_from_alloca v ]
      | call b c ↦ root_of_call initial path v c (is_memcpy (call b c))
      | global_var gv ↦ type_of_global gv.variable
      | argument a ↦ type_of_argument a.subprogram a.arg_no a.struct_ret
      | _ ↦ done none
    ]

  -- The fuel bounds the depth of the recursion, and `fuel` that of the searches.
  unfoldable pub find_type_root :
      ℕ
      → (ValueId → Call → Outcome (Option DimetaData))
      → ℕ
      → Option ValueId
      → ValuePath
      → Outcome (Option Ptr)
  unfolding root_of
  find_type_root fuel type_for zero initial path = out_of_fuel
  find_type_root fuel type_for (suc depth) initial path =
      let rec = find_type_root fuel type_for depth none in
      elim (value path) [ none ↦ done none | some v ↦ root_of fuel rec type_for initial path v ]
