-- ===== src/Tbaa.antt =====
-- lib/type/TBAA.cpp: the access tag of an instruction, the nodes that it names, and the type tree below
-- them. The pointer test is that of LLVM 19 and later.
pub mod Resolve
pub mod Looks
pub mod Covers
pub mod Fits
use llvm_dimeta.Base.{
  ltb, if◌then◌else◌, add64, length, any_of, out_of_bounds, Outcome, done, fault, out_of_fuel,
  ◌>>=◌, ◌>>◌, deref, assert, index, ℕ, zero, suc, ◌-◌, ◌/◌, String, Bool, true, false, not, ◌&&◌,
  ◌||◌, Option, none, some, List, [], ◌∷◌, str_eq, starts_with,
}
use llvm_dimeta.Ir.{ValueId}

abbrev pub MdId : Type 0
MdId = ℕ

-- An operand of an llvm::MDNode: a text, a node, a ConstantInt with its limited value, another value, or
-- what the code does not look into, such as null
pub data MdOperand : Type 0 where
  md_string : String → MdOperand
  md_node : MdId → MdOperand
  md_constant : ℕ → MdOperand
  md_value md_other : MdOperand

-- The metadata nodes by their operands, and the metadata `tbaa` of an instruction
pub record TbaaData : Type 0 where
  pub operands : MdId → List MdOperand
  pub tag : ValueId → Option MdId

-- TBAAHandle; a cast to a node gives null for another operand.
pub record TbaaHandle : Type 0 where
  pub base_ty : Option MdId
  pub access_ty : Option MdId
  pub offset_value : ℕ

abbrev pub as_md_node : MdOperand → Option MdId
as_md_node (md_node n) = some n
as_md_node _ = none

abbrev pub as_md_string : MdOperand → Option String
as_md_string (md_string s) = some s
as_md_string _ = none

abbrev pub as_md_constant : MdOperand → Option ℕ
as_md_constant (md_constant n) = some n
as_md_constant _ = none

-- A pointer's name: "any pointer", or what matches the pattern "p[1-9] *"
unfoldable pub check_if_pointer_type : String → Bool
check_if_pointer_type name =
    str_eq name "any pointer"
    || any_of (λ prefix. starts_with name prefix)
        ("p1 " ∷ "p2 " ∷ "p3 " ∷ "p4 " ∷ "p5 " ∷ "p6 " ∷ "p7 " ∷ "p8 " ∷ "p9 " ∷ [])

-- TBAADestructure without its name
pub record Destructured : Type 0 where
  pub offset_base : ℕ
  pub outermost_candidate : Option MdId

abbrev pub matches_name : String → Option String → Bool
matches_name name none = false
matches_name name (some s) = not (str_eq s "") && str_eq name s

-- What is added for the operand after a node that matched
abbrev pub add_offset : MdOperand → Destructured → Destructured
add_offset next s = elim (as_md_constant next) [
  | none ↦ s
  | some offset ↦ record s { offset_base = add64 s.offset_base offset }
]

module _ (tbaa : TbaaData) where
  -- The constructor of TBAAHandle, from an access tag
  unfoldable pub handle_of : MdId → Outcome TbaaHandle
  handle_of access = do
    base ← index (tbaa.operands access) 0
    accessed ← index (tbaa.operands access) 1
    value ← index (tbaa.operands access) 2
    offset ← deref (as_md_constant value)
    done (record {
      base_ty = as_md_node base;
      access_ty = as_md_node accessed;
      offset_value = offset;
    })

  unfoldable pub create_handle : ValueId → Outcome (Option TbaaHandle)
  unfolding handle_of
  create_handle instruction = elim (tbaa.tag instruction) [
    | none ↦ done none
    | some access ↦ do h ← handle_of access; done (some h)
  ]

  -- The text that is the first operand of a node: base_name and access_name
  unfoldable pub name_of : Option MdId → Outcome String
  name_of node = do n ← deref node; first ← index (tbaa.operands n) 0; deref (as_md_string first)

  unfoldable pub access_is_ptr : TbaaHandle → Outcome Bool
  unfolding name_of check_if_pointer_type
  access_is_ptr h = do name ← name_of h.access_ty; done (check_if_pointer_type name)

  -- The pairs of a type and an offset that a node has after its name
  unfoldable pub tbaa_operand_count : Option MdId → Outcome ℕ
  tbaa_operand_count type_node = do
    n ← deref type_node
    let num = length (tbaa.operands n)
    assert (ltb 0 num)
    done ((num - 1) / 2)

  unfoldable pub tbaa_operand_name : MdId → Outcome (Option String)
  tbaa_operand_name type_node = elim (tbaa.operands type_node) [
    | [] ↦ done none
    | first ∷ rest ↦ do s ← deref (as_md_string first); done (some s)
  ]

  -- The loop over the operands but the last, which the next one of each is read for
  unfoldable pub traverse_operands :
      (MdId → Destructured → Outcome (Destructured × Bool))
      → List MdOperand
      → Destructured
      → Outcome Destructured
  traverse_operands rec [] s = fault out_of_bounds
  traverse_operands rec (x ∷ []) s = done s
  traverse_operands rec (x ∷ next ∷ rest) s =
      let others : Destructured → Outcome Destructured =
        λ t. traverse_operands rec (next ∷ rest) t in
      elim (as_md_node x) [
        | none ↦ others s
        | some n ↦ do r ← rec n s; if r.1 then done (add_offset next r.0) else others r.0
      ]

  unfoldable pub traverse_tbaa_nodes :
      ℕ → String → MdId → Destructured → Outcome (Destructured × Bool)
  unfolding tbaa_operand_name traverse_operands
  traverse_tbaa_nodes zero name new_base_ty s = out_of_fuel
  traverse_tbaa_nodes (suc fuel) name new_base_ty s = do
    tbaa_name ← tbaa_operand_name new_base_ty
    if matches_name name tbaa_name
        then done (record s { outermost_candidate = some new_base_ty }, true)
        else (do
          t ← traverse_operands (traverse_tbaa_nodes fuel name) (tbaa.operands new_base_ty) s
          done (t, false))

  unfoldable pub tbaa_sub_node_matches_name : ℕ → String → Option MdId → Outcome Destructured
  unfolding traverse_tbaa_nodes
  tbaa_sub_node_matches_name fuel name new_base_ty = do
    n ← deref new_base_ty
    r ← traverse_tbaa_nodes fuel name n (record { offset_base = 0; outermost_candidate = none })
    done r.0
