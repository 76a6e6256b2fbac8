-- ===== src/Visitor/Termination.antt =====
-- The traversal of lib/type/DIVisitor.h ends: a composite that is on the path is not entered again,
-- and what lies between two composites has a rank that falls. So a bound on the recursion depth,
-- the fuel of `invoke_if_any`, follows from the number of nodes and the largest rank.
use llvm_dimeta.Base.{
  ◌==◌, if◌then◌else◌, Bool-cases, if_intro, All, contains, erase, unseen, unseen-nil, Outcome,
  done, Finishes, >>=-Finishes, ℕ, zero, suc, ◌+◌, ◌*◌, ◌<◌, ◌≡◌, refl, sym, subst, inl, inr, Bool,
  false, [], ◌∷◌, arith,
}
use llvm_dimeta.Metadata.{
  dw_tag_array_type, NodeId, DerivedType, CompositeType, Variable, DiNode, basic, derived,
  composite, string_type, subroutine, enumerator, subrange, local_variable, global_variable, other,
  Metadata,
}
use llvm_dimeta.Visitor.{
  Kind, at_node, at_variable, at_basic_type, at_string_type, at_derived_type, at_composite_type,
  at_recurring_composite_type, Hooks, Walk, start, is_traversed_type, is_variable, pop_var,
  pop_derived, pop_composite, traverse_other, traverse_leaf, traverse_recurring_composite_type,
  traverse_variable, traverse_derived_type, open_composite, traverse_fresh_composite,
  traverse_composite_type, dispatch, invoke_if_any, traverse_node,
}
use llvm_dimeta.Visitor.Frame.{Balanced}
use llvm_dimeta.Visitor.Cost.{HooksFinish, to_list, affordable, refs, is_scope, IsFinite}
use llvm_dimeta.Visitor.Ends.{keeps_nothing, frame-Finishes, pops_finish}
use llvm_dimeta.Visitor.Balance.{invoke_if_any-Balanced}
use llvm_dimeta.Visitor.Below.{
  cost, IsCheap, type-Finishes, parts-Finishes, IsCheap-falls, IsCheap-scope,
}

module _ {S : Type 0} (h : Hooks S) (g : Metadata) (ends : HooksFinish h) where
  -- From here on: a finite graph, its ranks, and calls `inv` that end on what is cheaper.
  module _ (size top : ℕ) (rank : NodeId → ℕ) (fin : IsFinite g size top rank) where
    module _ (inv : NodeId → Walk S → Outcome (Walk S × Bool)) (fuel : ℕ)
        (rec : (m : NodeId) → Balanced (λ (u : Unit {0}) s. Unit {0}) (inv m))
        (stops : (m : NodeId) (w : Walk S)
          → IsCheap size top rank fuel w.visited m
          → Finishes (inv m w)) where
      node-Finishes :
          (k : Kind) (n : NodeId) (w : Walk S)
          → Finishes (traverse_leaf h g k n w)
            × Finishes (traverse_other h g n w)
            × Finishes (traverse_recurring_composite_type h g n w)
      unfolding traverse_leaf traverse_other traverse_recurring_composite_type
      node-Finishes k n w = (
        frame-Finishes h g ends k n done _ (pop_var h g) (λ r e. tt)
            (λ v. (pops_finish h g ends v).0),
        frame-Finishes h g ends at_node n done w done (λ r e. tt) (λ v. tt),
        frame-Finishes h g ends at_recurring_composite_type n done _ (pop_composite h g) (λ r e. tt)
            (λ v. (pops_finish h g ends v).2),
      )

      variable-Finishes :
          (n : NodeId) (v : Variable) (w : Walk S)
          → All (IsCheap size top rank fuel w.visited) (to_list v.type)
          → Finishes (traverse_variable h g inv n v w)
      unfolding traverse_variable
      variable-Finishes n v w c =
          frame-Finishes h g ends at_variable n _ w done
            (λ r e.
              if_intro Finishes r.1
                (type-Finishes h g ends size top rank inv fuel rec stops v.type r.0
                  (subst (λ u. All (IsCheap size top rank fuel u) (to_list v.type)) (sym e) c))
                tt)
            (λ v. tt)

      derived-Finishes :
          (n : NodeId) (d : DerivedType) (w : Walk S)
          → All (IsCheap size top rank fuel w.visited) (to_list d.base_type)
          → Finishes (traverse_derived_type h g inv n d w)
      unfolding traverse_derived_type
      derived-Finishes n d w c =
          frame-Finishes h g ends at_derived_type n _ _ (pop_derived h g)
            (λ r e.
              if_intro Finishes r.1
                (type-Finishes h g ends size top rank inv fuel rec stops d.base_type r.0
                  (subst (λ u. All (IsCheap size top rank fuel u) (to_list d.base_type)) (sym e) c))
                tt)
            (λ v. (pops_finish h g ends v).1)

      composite-Finishes :
          (n : NodeId) (c : CompositeType) (w : Walk S)
          → g n ≡ composite c
          → n < size
          → cost size top rank n w.visited < suc fuel
          → contains w.visited n ≡ false
          → Finishes (traverse_fresh_composite h g inv n c w)
      unfolding traverse_fresh_composite open_composite
      composite-Finishes n c w e i k fresh =
          frame-Finishes h g ends at_composite_type n _ _
            (λ v. pop_composite h g (record v { visited = erase n v.visited }))
            (λ r q.
              if_intro Finishes r.1
                (parts-Finishes h g ends size top rank inv fuel rec stops c r.0 (
                  subst (λ u. All (IsCheap size top rank fuel u) (refs (composite c))) (sym q)
                    below))
                tt)
            (λ v. (pops_finish h g ends _).2)
        where
          below :
              All
                (IsCheap size top rank fuel
                  (if c.tag == dw_tag_array_type then w.visited else n ∷ w.visited))
                (refs (composite c))
          below = elim (Bool-cases (c.tag == dw_tag_array_type)) [
            | inl a ↦ rw a (
                rw e at (
                  IsCheap-falls size top rank g fin fuel n w.visited i (rw (e, is_scope) (rw a)) k))
            | inr a ↦ rw a (rw e at (IsCheap-scope size top rank g fin fuel n w.visited i fresh k))
          ]

      dispatch-Finishes :
          (n : NodeId) (w : Walk S) (d : DiNode)
          → g n ≡ d
          → n < size
          → cost size top rank n w.visited < suc fuel
          → Finishes (dispatch h g inv n d w)
      unfolding dispatch
      dispatch-Finishes n w (basic b) e i c = (node-Finishes at_basic_type n w).0
      dispatch-Finishes n w (derived d) e i c =
          derived-Finishes n d w
            (rw e at (IsCheap-falls size top rank g fin fuel n w.visited i (rw (e, is_scope)) c))
      dispatch-Finishes n w (composite c) e i k = elim (Bool-cases (contains w.visited n)) [
        | inl old ↦ unfold traverse_composite_type in rw old (node-Finishes at_basic_type n w).2
        | inr fresh ↦
            unfold traverse_composite_type in rw fresh (composite-Finishes n c w e i k fresh)
      ]
      dispatch-Finishes n w (string_type s k) e i c = (node-Finishes at_string_type n w).0
      dispatch-Finishes n w (local_variable v) e i c =
          variable-Finishes n v w
            (rw e at (IsCheap-falls size top rank g fin fuel n w.visited i (rw (e, is_scope)) c))
      dispatch-Finishes n w (global_variable v) e i c =
          variable-Finishes n v w
            (rw e at (IsCheap-falls size top rank g fin fuel n w.visited i (rw (e, is_scope)) c))
      dispatch-Finishes n w (enumerator s) e i c = (node-Finishes at_node n w).1
      dispatch-Finishes n w (subrange c) e i k = (node-Finishes at_node n w).1
      dispatch-Finishes n w (subroutine ts) e i c = (node-Finishes at_node n w).1
      dispatch-Finishes n w (other t) e i c = tt

    invoke_if_any-Finishes :
        (fuel : ℕ) (n : NodeId) (w : Walk S)
        → n < size
        → cost size top rank n w.visited < fuel
        → Finishes (invoke_if_any h g fuel n w)
    unfolding invoke_if_any
    invoke_if_any-Finishes zero n w i c = absurd (omega arith)
    invoke_if_any-Finishes (suc fuel) n w i c =
        dispatch-Finishes (invoke_if_any h g fuel) fuel
          (invoke_if_any-Balanced h g _ (keeps_nothing h g ends) fuel)
          (λ m v c. invoke_if_any-Finishes fuel m v c.0 c.1) n w (g n) refl i c

    -- From the start, the fuel lets every node be entered once on a path, and the ranks fall between
    -- two entries.
    pub invoke_start-Finishes :
        (fuel : ℕ) (n : NodeId) (s : S)
        → n < size
        → size * suc (suc top) + top < fuel
        → Finishes (invoke_if_any h g fuel n (start s))
    invoke_start-Finishes fuel n s i c =
        invoke_if_any-Finishes fuel n (start s) i
          (affordable (unseen size []) size (rank n) top fuel (unseen-nil size) (fin.bounded n i) c)

    -- With callbacks that end, a traversal of a finite graph in which only composites other than arrays
    -- lie on cycles, from one of its nodes, does not run out of a fuel that is linear in their number.
    pub traverse_node-Finishes :
        (fuel : ℕ) (n : NodeId) (s : S)
        → n < size
        → size * suc (suc top) + top < fuel
        → Finishes (traverse_node h g fuel n (start s))
    unfolding traverse_node
    traverse_node-Finishes fuel n s i c =
        if_intro Finishes (is_traversed_type (g n))
          (>>=-Finishes (h.visit_type n s) _ (ends.visit_type n s)
            λ r e. if_intro Finishes r.1 (invoke_start-Finishes fuel n r.0 i c) tt)
          (if_intro Finishes (is_variable (g n)) (invoke_start-Finishes fuel n s i c)
            (frame-Finishes h g ends at_node n done _ done (λ r e. tt) (λ v. tt)))
