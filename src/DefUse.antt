-- ===== src/DefUse.antt =====
-- lib/type/DefUseAnalysis.h: the search along def-use chains, DefUseChain::do_traverse, with a stack
-- of paths and the set of values that were popped.
pub mod Termination
pub mod Cost
pub mod Sound
pub mod Complete
pub mod Covered
pub mod First
use llvm_dimeta.Base.{
  if◌then◌else◌, contains, ℕ, zero, suc, ◌≡◌, refl, ◌⊎◌, inl, inr, Bool, Option, none, some, List,
  [], ◌∷◌,
}
use llvm_dimeta.Ir.{ValueId, Ir}
use llvm_dimeta.ValuePath.{ValuePath, start_at, value, extend}

pub data MatchResult : Type 0 where
  continue cancel skip : MatchResult

pub MatchResult-cases : (r : MatchResult) → (r ≡ continue) ⊎ (r ≡ cancel) ⊎ (r ≡ skip)
MatchResult-cases continue = inl refl
MatchResult-cases cancel = inr (inl refl)
MatchResult-cases skip = inr (inr refl)

-- The top of the stack, the back of the vector, is the head of the list.
pub record Work : Type 0 where
  pub working_set : List ValuePath
  pub seen_set : List ValueId

unfoldable pub add_to_work_s : Work → ValuePath → Work
unfolding value
add_to_work_s w p = elim (value p) [
  | none ↦ w
  | some v ↦ if contains w.seen_set v then w else record w { working_set = p ∷ w.working_set }
]

unfoldable pub add_to_work : Work → List ValueId → ValuePath → Work
unfolding add_to_work_s extend
add_to_work w [] p = w
add_to_work w (v ∷ vs) p = add_to_work (add_to_work_s w (extend p v)) vs p

-- `match` has a state `M`, which the callbacks of the code capture by reference.
module _ {M : Type 0} (match : ValuePath → M → M × MatchResult) (should_search : ValuePath → Bool)
    (search : ValuePath → Option (List ValueId)) where
  unfoldable pub apply_search_direction : Work → ValuePath → Work
  unfolding add_to_work
  apply_search_direction w p = elim (search p) [ none ↦ w | some vs ↦ add_to_work w vs p ]

  -- The loop: none says that the fuel ran out. `cancel` returns at once, `skip` does not go on from
  -- the path.
  unfoldable pub do_traverse : ℕ → Work → M → Option M
  unfolding apply_search_direction value
  do_traverse zero w m = none
  do_traverse (suc fuel) w m =
      let rest = do_traverse fuel in
      elim w.working_set [
        | [] ↦ some m
        | p ∷ ps ↦ elim (value p) [
          | none ↦ rest (record w { working_set = ps }) m
          | some v ↦
              let w1 : Work = record { working_set = ps; seen_set = v ∷ w.seen_set } in
              let r = match p m in
              elim r.1 [
                | cancel ↦ some r.0
                | skip ↦ rest w1 r.0
                | continue ↦ rest (if should_search p then apply_search_direction w1 p else w1) r.0
              ]
        ]
      ]

  unfoldable pub traverse_custom : ℕ → ValueId → M → Option M
  unfolding do_traverse add_to_work_s
  traverse_custom fuel v m =
      do_traverse fuel (add_to_work_s (record { working_set = []; seen_set = [] }) (start_at v)) m

-- `traverse` searches the users of a value.
abbrev pub users_of : Ir → ValuePath → Option (List ValueId)
users_of ir p = elim (value p) [ none ↦ none | some v ↦ some (ir.users v) ]

unfoldable pub traverse :
    {M : Type 0}
    → Ir
    → (ValuePath → M → M × MatchResult)
    → (ValuePath → Bool)
    → ℕ
    → ValueId
    → M
    → Option M
unfolding traverse_custom
traverse ir match should_search fuel v m =
    traverse_custom match should_search (users_of ir) fuel v m
