-- ===== src/Pass.antt =====
-- lib/pass/DimetaPass.cpp: the plugin's pass, which prints the type of each allocation in a function.
pub mod Shown
pub mod Final
use llvm_dimeta.TypeExtractor.Knot.{Program, default_config, finder_of, find_type, type_for}
use llvm_dimeta.Calls.TypeFor.{type_for_alloca}
use llvm_dimeta.Base.{
  if◌then◌else◌, failed_assertion, Outcome, done, fault, out_of_fuel, ◌>>=◌, ◌>>◌, deref, ℕ, zero,
  suc, String, Bool, Option, none, some, List, [], ◌∷◌, ◌++◌,
}
use llvm_dimeta.Metadata.{NodeId, Metadata, as_derived, Ptr}
use llvm_dimeta.Ir.{ValueId, Value, alloca, call}
use llvm_dimeta.Calls.{DimetaData}

-- What a line of the output tells
pub data Line : Type 0 where
  function_line : String → Line
  rule : Line
  heap_type stack_type : NodeId → Line

-- llvm::Function: its name, whether it is only declared, and its instructions
pub record Function : Type 0 where
  pub name : String
  pub is_declaration : Bool
  pub instructions : List ValueId

module _ (g : Metadata) where
  -- The lambda ditype_tostring; `isa` on a null pointer is undefined.
  unfoldable pub ditype_tostring : ℕ → NodeId → Outcome NodeId
  ditype_tostring zero t = out_of_fuel
  ditype_tostring (suc fuel) t = elim (as_derived (g t)) [
    | none ↦ done t
    | some d ↦ elim d.base_type [ none ↦ done t | some b ↦ ditype_tostring fuel b ]
  ]

  -- std::optional::value of the base type
  abbrev pub base_type_of : Option Ptr → Outcome NodeId
  base_type_of none = fault failed_assertion
  base_type_of (some t) = deref t

  -- A line for the data, if there are any; std::optional::value of no base type ends the program.
  unfoldable pub line_of : ℕ → (NodeId → Line) → Option DimetaData → Outcome (List Line)
  unfolding ditype_tostring
  line_of chain line none = done []
  line_of chain line (some d) = do
    base ← base_type_of d.base_type
    shown ← ditype_tostring chain base
    done (line shown ∷ [])

module _ (program : Program) (fuel chain walk depth : ℕ) where
  -- type_for of an alloca, with the whole library below it
  abbrev pub alloca_type : ValueId → Outcome (Option DimetaData)
  alloca_type ai =
      let find = find_type program fuel chain walk depth in
      type_for_alloca program.use_heapallocsite program.metadata program.ir
        (finder_of program fuel chain walk find) fuel chain ai

  -- The body of the loop over the instructions, for the instruction `v` with its value
  unfoldable pub lines_for : ValueId → Value → Outcome (List Line)
  unfolding type_for line_of type_for_alloca
  lines_for v (call b c) = do
    ditype ← type_for program fuel chain walk depth v c default_config
    line_of program.metadata chain heap_type ditype
  lines_for v alloca = do
    alloca_di ← alloca_type v
    line_of program.metadata chain stack_type alloca_di
  lines_for v _ = done []

  abbrev pub lines_at : ValueId → Outcome (List Line)
  lines_at v = lines_for v (program.ir.value v)

  unfoldable pub lines_of : List ValueId → Outcome (List Line)
  unfolding lines_for
  lines_of [] = done []
  lines_of (v ∷ vs) = do ls ← lines_at v; rest ← lines_of vs; done (ls ++ rest)

  unfoldable pub run_on_func : Function → Outcome (List Line)
  unfolding lines_of
  run_on_func f =
      if f.is_declaration
      then done []
      else (do ls ← lines_of f.instructions; done (function_line f.name ∷ rule ∷ ls ++ rule ∷ []))

  unfoldable pub run : List Function → Outcome (List Line)
  unfolding run_on_func
  run [] = done []
  run (f ∷ fs) = do ls ← run_on_func f; rest ← run fs; done (ls ++ rest)
