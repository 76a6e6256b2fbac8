-- ===== src/Dataflow/Shape.antt =====
-- What shape_from_value of lib/type/DataflowAnalysis.cpp finds.
use llvm_dimeta.Base.{
  get_elem?, suc, ◌+◌, ◌%◌, ◌^◌, ◌≤◌, if◌then◌else◌, Outcome, done, ◌>>=◌, ℕ, ◌<◌, ◌≡◌, Bool, true,
  none, some, List, [], ◌∷◌, ◌++◌,
}
use llvm_dimeta.Ir.{ValueId, Callee, Call, Value, call, Ir}
use llvm_dimeta.ValuePath.{ValuePath, value}
use llvm_dimeta.DefUse.{users_of}
use llvm_dimeta.DefUse.Sound.{Chained}
use llvm_dimeta.Dataflow.Number.{IsNumber}
use llvm_dimeta.Dataflow.Fortran.{IndexDim, sets_bounds, read_bounds, match_bounds}

-- The extent of a dimension, by its lower and its upper bound as 64-bit patterns: with the lower bound it
-- gives one more than the upper one, modulo 2^64; a negative lower bound makes it the upper bound.
abbrev pub IsExtent : ℕ → ℕ → ℕ → Type 0
IsExtent lower upper dim =
    (lower < 2 ^ 63 → (dim + lower) % 2 ^ 64 ≡ suc upper % 2 ^ 64) × (2 ^ 63 ≤ lower → dim ≡ upper)

-- The arguments 1, 2 and 3 are the number of the dimension, its lower and its upper bound.
pub record GivenBy (ir : Ir) (arguments : List ValueId) (d : IndexDim) : Type 0 where
  pub number : ValueId
  pub lower : ValueId
  pub upper : ValueId
  pub number_at : get_elem? arguments 1 ≡ some number
  pub lower_at : get_elem? arguments 2 ≡ some lower
  pub upper_at : get_elem? arguments 3 ≡ some upper
  pub position : IsNumber ir number d.position
  pub lower_bound : ℕ
  pub upper_bound : ℕ
  pub is_lower : IsNumber ir lower lower_bound
  pub is_upper : IsNumber ir upper upper_bound
  pub extent : IsExtent lower_bound upper_bound d.dim

module _ (ir : Ir) (fuel : ℕ) (start : ValueId) where
  -- A chain of uses from the start to a call that sets the bounds, and the arguments of that call give
  -- the dimension.
  pub record FromCall (d : IndexDim) : Type 0 where
    pub path : ValuePath
    pub chained : Chained (match_bounds ir fuel) (λ p. true) (users_of ir) start path
    pub call_value : ValueId
    pub ends : value path ≡ some call_value
    pub is_call_base : Bool
    pub caller : Call
    pub calls : ir.value call_value ≡ call is_call_base caller
    pub function : Callee
    pub callee : caller.callee ≡ some function
    pub bounds : sets_bounds function.name ≡ true
    pub given : GivenBy ir caller.arguments d

  -- What one value on a path adds to the dimensions
  abbrev with_value : Value → Outcome (List IndexDim) → Outcome (List IndexDim)
  with_value x shapes = elim x [
    | call b c ↦ elim c.callee [
      | none ↦ shapes
      | some f ↦
          if sets_bounds f.name
          then (do found ← shapes; d ← read_bounds ir fuel c.arguments; done (found ++ d ∷ []))
          else shapes
    ]
    | _ ↦ shapes
  ]
