-- ===== src/Dataflow/Fortran.antt =====
-- The searches of lib/type/DataflowAnalysis.cpp for Fortran: the bounds of an allocated array, and
-- whether a variable is passed to the runtime library of Flang.
use llvm_dimeta.Base.{
  ltb, leb, if◌then◌else◌, u64_mod, failed_assertion, Outcome, done, fault, out_of_fuel, ◌>>=◌,
  ◌>>◌, assert, index, ℕ, ◌+◌, ◌-◌, ◌%◌, ◌^◌, String, Bool, true, false, not, ◌&&◌, ◌||◌, Option,
  none, some, List, [], ◌∷◌, ◌++◌, str_eq, starts_with,
}
use llvm_dimeta.Ir.{ValueId, Value, call, global_var, constant_int, Ir}
use llvm_dimeta.ValuePath.{ValuePath, value}
use llvm_dimeta.DefUse.{MatchResult, continue, cancel, traverse_custom, traverse}
use llvm_dimeta.Dataflow.{malloc_backtrack_search}

-- The lambda to_int of get_as_int: the value of a ConstantInt, as a 64-bit pattern, which an assertion
-- bounds in width
unfoldable pub to_int : Value → Outcome (Option ℕ)
to_int (constant_int width n) = do assert (leb width 64); done (some n)
to_int _ = done none

-- A global variable: its initializer
abbrev pub as_global : Value → Option (Option ValueId)
as_global (global_var gv) = some gv.initializer
as_global _ = none

-- std::int64_t of -1
abbrev pub minus_one : ℕ
minus_one = u64_mod - 1

-- A 64-bit pattern that stands for a number from 0 on
abbrev pub is_non_negative : ℕ → Bool
is_non_negative n = ltb n (2 ^ 63)

-- ShapeData::IndexDim of lib/type/Dimeta.h, whose field `index` is `position` here
pub record IndexDim : Type 0 where
  pub position : ℕ
  pub dim : ℕ

-- The function that a call calls, if it is known
abbrev pub callee_name : Value → Option String
callee_name (call b c) = elim c.callee [ none ↦ none | some f ↦ some f.name ]
callee_name _ = none

abbrev pub sets_bounds : String → Bool
sets_bounds name =
    starts_with name "_FortranAAllocatableSetBounds" || starts_with name "_FortranAPointerSetBounds"

abbrev pub is_fortran_helper : String → Bool
is_fortran_helper name = starts_with name "_FortranA" && not (str_eq name "_FortranAioOutputAscii")

-- The extent from a lower and an upper bound, where a negative lower bound stands for none.
unfoldable pub dim_size : ℕ → ℕ → ℕ
dim_size dim1 dim2 = if is_non_negative dim1 then (dim2 + (u64_mod - dim1) + 1) % u64_mod else dim2

module _ (ir : Ir) where
  -- The number in the initializer of a global variable, which an assertion of getInitializer requires
  unfoldable pub read_initializer : Option ValueId → Option ℕ → Outcome (Option ℕ)
  unfolding to_int
  read_initializer none found = fault failed_assertion
  read_initializer (some i) found = do
    int_value ← to_int (ir.value i)
    done (elim int_value [ none ↦ found | some n ↦ some n ])

  -- The callback of get_as_int: the first global variable ends the search.
  unfoldable pub match_global : ValuePath → Outcome (Option ℕ) → Outcome (Option ℕ) × MatchResult
  unfolding read_initializer
  match_global p found = elim (value p) [
    | none ↦ (found, continue)
    | some v ↦ elim (as_global (ir.value v)) [
      | none ↦ (found, continue)
      | some initializer ↦
          (do global_value ← found; read_initializer initializer global_value, cancel)
    ]
  ]

  -- What get_as_int returns after its search
  abbrev pub value_or_minus_one : Option (Outcome (Option ℕ)) → Outcome ℕ
  value_or_minus_one none = out_of_fuel
  value_or_minus_one (some found) = do
    global_value ← found
    done (elim global_value [ none ↦ minus_one | some n ↦ n ])

  unfoldable pub get_as_int : ℕ → ValueId → Outcome ℕ
  unfolding to_int traverse_custom match_global malloc_backtrack_search
  get_as_int fuel shape = do
    int_value ← to_int (ir.value shape)
    elim int_value [
      | some n ↦ done n
      | none ↦ value_or_minus_one (
          traverse_custom match_global (λ p. true) (malloc_backtrack_search ir) fuel shape
            (done none))
    ]

  -- The arguments 1, 2 and 3 of a call that sets the bounds of a dimension
  unfoldable pub read_bounds : ℕ → List ValueId → Outcome IndexDim
  unfolding get_as_int dim_size
  read_bounds fuel arguments = do
    upper ← index arguments 3
    dim2 ← get_as_int fuel upper
    lower ← index arguments 2
    dim1 ← get_as_int fuel lower
    number ← index arguments 1
    i ← get_as_int fuel number
    done (record { position = i; dim = dim_size dim1 dim2 })

  unfoldable pub match_bounds :
      ℕ → ValuePath → Outcome (List IndexDim) → Outcome (List IndexDim) × MatchResult
  unfolding read_bounds
  match_bounds fuel p shapes = (
    elim (value p) [
      | none ↦ shapes
      | some v ↦ elim (ir.value v) [
        | call b c ↦ elim c.callee [
          | none ↦ shapes
          | some f ↦
              if sets_bounds f.name
              then (do found ← shapes; d ← read_bounds fuel c.arguments; done (found ++ d ∷ []))
              else shapes
        ]
        | _ ↦ shapes
      ]
    ],
    continue,
  )

  unfoldable pub shape_from_value : ℕ → ValueId → Outcome (Option (List IndexDim))
  unfolding traverse match_bounds
  shape_from_value fuel v = elim (traverse ir (match_bounds fuel) (λ p. true) fuel v (done [])) [
    | none ↦ out_of_fuel
    | some r ↦ do shapes ← r; done (elim shapes [ [] ↦ none | d ∷ ds ↦ some (d ∷ ds) ])
  ]

  unfoldable pub match_helper : ValuePath → Bool → Bool × MatchResult
  match_helper p passed = elim (value p) [
    | none ↦ (passed, continue)
    | some v ↦ elim (callee_name (ir.value v)) [
      | none ↦ (passed, continue)
      | some name ↦ if is_fortran_helper name then (true, cancel) else (passed, continue)
    ]
  ]

  unfoldable pub passed_to_fortran_helper : ℕ → ValueId → Option Bool
  unfolding traverse match_helper
  passed_to_fortran_helper fuel v = traverse ir match_helper (λ p. true) fuel v false
