-- ===== src/ValuePath.antt =====
-- lib/type/ValuePath.h: the values that a dataflow search went through, from its start on.
use llvm_dimeta.Base.{
  ◌==◌, length, get_elem?, back?, length-append, back?-append, contains, ℕ, suc, ◌≡◌, refl, Bool,
  Option, none, some, List, [], ◌∷◌, ◌++◌, arith,
}
use llvm_dimeta.Ir.{ValueId}

pub record ValuePath : Type 0 where
  pub path_to_value : List ValueId

abbrev pub start_at : ValueId → ValuePath
start_at v = record { path_to_value = v ∷ [] }

unfoldable pub path_contains : ValuePath → ValueId → Bool
path_contains p v = contains p.path_to_value v

unfoldable pub is_empty : ValuePath → Bool
is_empty p = length p.path_to_value == 0

unfoldable pub only_start : ValuePath → Bool
only_start p = length p.path_to_value == 1

unfoldable pub value : ValuePath → Option ValueId
value p = back? p.path_to_value

-- The last entry but one
unfoldable pub second_last : List ValueId → Option ValueId
second_last [] = none
second_last (v ∷ []) = none
second_last (v ∷ w ∷ []) = some v
second_last (v ∷ w ∷ u ∷ vs) = second_last (w ∷ u ∷ vs)

unfoldable pub previous_value : ValuePath → Option ValueId
unfolding second_last
previous_value p = second_last p.path_to_value

unfoldable pub start_value : ValuePath → Option ValueId
start_value p = get_elem? p.path_to_value 0

unfoldable pub at : ValuePath → ℕ → Option ValueId
at p i = get_elem? p.path_to_value i

unfoldable pub path_size : ValuePath → ℕ
path_size p = length p.path_to_value

-- operator+ with a value
unfoldable pub extend : ValuePath → ValueId → ValuePath
extend p v = record { path_to_value = p.path_to_value ++ v ∷ [] }

-- operator+= with a path
unfoldable pub append : ValuePath → ValuePath → ValuePath
append p q = record { path_to_value = p.path_to_value ++ q.path_to_value }

second_last-append : (vs : List ValueId) (v : ValueId) → second_last (vs ++ v ∷ []) ≡ back? vs
unfolding second_last
second_last-append [] v = refl
second_last-append (a ∷ []) v = refl
second_last-append (a ∷ b ∷ []) v = refl
second_last-append (a ∷ b ∷ c ∷ vs) v = second_last-append (b ∷ c ∷ vs) v

start-append :
    (vs : List ValueId) (v s : ValueId)
    → get_elem? vs 0 ≡ some s
    → get_elem? (vs ++ v ∷ []) 0 ≡ some s
start-append [] v s e = cc
start-append (a ∷ vs) v s e = e

-- A path that is extended by a value ends in that value, and the value before it is where the path
-- ended; a path that had a start keeps it, and the size grows by one.
pub extend_lem :
    (p : ValuePath) (v : ValueId)
    → (value (extend p v) ≡ some v)
      × (previous_value (extend p v) ≡ value p)
      × ((s : ValueId) → start_value p ≡ some s → start_value (extend p v) ≡ some s)
      × (path_size (extend p v) ≡ suc (path_size p))
unfolding value extend previous_value start_value path_size
extend_lem p v = (
  back?-append p.path_to_value v,
  second_last-append p.path_to_value v,
  λ s e. start-append p.path_to_value v s e,
  omega (arith, length-append p.path_to_value (v ∷ [])),
)
