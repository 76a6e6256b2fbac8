-- ===== src/Visitor/Cost.antt =====
-- What the traversal of lib/type/DIVisitor.h costs in depth of recursion: the nodes that a node
-- refers to, the ranks of a finite graph, and the arithmetic of the bound.
use llvm_dimeta.Base.{
  ◌==◌, All, Finishes, ℕ, suc, ◌+◌, ◌*◌, ◌≤◌, ◌<◌, ◌≡◌, Bool, false, not, Option, none, some, List,
  [], ◌∷◌, ◌++◌, arith,
}
use llvm_dimeta.Metadata.{
  dw_tag_array_type, NodeId, DiNode, derived, composite, local_variable, global_variable, Metadata,
}
use llvm_dimeta.Visitor.{Kind, Hooks}

pub record HooksFinish {S : Type 0} (h : Hooks S) : Type 0 where
  pub enter : (k : Kind) (n : NodeId) (s : S) → Finishes (h.enter k n s)
  pub visit : (k : Kind) (n : NodeId) (s : S) → Finishes (h.visit k n s)
  pub leave : (k : Kind) (n : NodeId) (s : S) → Finishes (h.leave k n s)
  pub visit_type : (n : NodeId) (s : S) → Finishes (h.visit_type n s)

abbrev pub to_list : Option NodeId → List NodeId
to_list none = []
to_list (some n) = n ∷ []

-- Entering a scope lowers the cost, whatever the ranks are.
pub scope_pays :
    (a b r q top fuel : ℕ)
    → suc a ≡ b
    → r ≤ top
    → b * suc (suc top) + q < suc fuel
    → a * suc (suc top) + r < fuel
scope_pays a b r q top fuel e h k =
    let k' : suc a * suc (suc top) + q < suc fuel = rw e k in omega arith

pub affordable :
    (a b r top fuel : ℕ)
    → a ≡ b
    → r ≤ top
    → b * suc (suc top) + top < fuel
    → a * suc (suc top) + r < fuel
affordable a b r top fuel e h k = rw e (omega arith)

-- The nodes that a traversal goes on to.
abbrev pub refs : DiNode → List NodeId
refs (derived d) = to_list d.base_type
refs (composite c) = to_list c.base_type ++ c.elements
refs (local_variable v) = to_list v.type
refs (global_variable v) = to_list v.type
refs _ = []

-- A composite other than an array goes into the set of visited nodes.
abbrev pub is_scope : DiNode → Bool
is_scope (composite c) = not (c.tag == dw_tag_array_type)
is_scope _ = false

-- The nodes are the numbers below `size`. Ranks fall along every reference but those of a scope.
pub record IsFinite (g : Metadata) (size top : ℕ) (rank : NodeId → ℕ) : Type 0 where
  pub closed : (n : NodeId) → n < size → All (λ m. m < size) (refs (g n))
  pub falls :
      (n : NodeId) → n < size → is_scope (g n) ≡ false → All (λ m. rank m < rank n) (refs (g n))
  pub bounded : (n : NodeId) → n < size → rank n ≤ top
