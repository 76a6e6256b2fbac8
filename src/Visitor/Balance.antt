-- ===== src/Visitor/Balance.antt =====
-- The scope exits of lib/type/DIVisitor.h are balanced: whatever the callbacks do, a traversal that
-- returns leaves the set of visited composites and the three depths as it found them. The same
-- induction carries a property of the subclass's state through a traversal.
use llvm_dimeta.Base.{
  ◌==◌, Bool-cases, if_intro, contains, erase, erase-absent, erase-cons_self, Outcome, done, Post,
  >>=-Post, ℕ, zero, suc, ◌≡◌, inl, inr, Bool, false, not, ◌&&◌, Option, none, some, List, [], ◌∷◌,
  arith,
}
use llvm_dimeta.Metadata.{
  dw_tag_array_type, NodeId, DerivedType, CompositeType, Variable, DiNode, basic, derived,
  composite, string_type, subroutine, enumerator, subrange, local_variable, global_variable, other,
  Metadata,
}
use llvm_dimeta.Visitor.{
  Kind, at_node, at_variable, at_basic_type, at_string_type, at_derived_type, at_composite_type,
  at_recurring_composite_type, Hooks, Walk, is_traversed_type, is_variable, pop_var, pop_derived,
  pop_composite, traverse_other, traverse_leaf, traverse_recurring_composite_type, traverse_type,
  traverse_variable, traverse_derived_type, traverse_elements, traverse_parts, open_composite,
  traverse_fresh_composite, traverse_composite_type, dispatch, invoke_if_any, traverse_node,
}
use llvm_dimeta.Visitor.Frame.{
  HooksKeep, Keeps, HooksFrame, HooksKeep-HooksFrame, KeepsBoth, Balanced, Keeps-trans, with_sub,
  stay, weaken, along, frame-Keeps, pop_var-Keeps, pop_derived-Keeps, pop_composite-Keeps,
}

module _ {S I : Type 0} (h : Hooks S) (g : Metadata) (P : I → S → Type 0)
    (keep : HooksFrame h P) where
  traverse_other-Balanced : (n : NodeId) → Balanced P (traverse_other h g n)
  unfolding traverse_other
  traverse_other-Balanced n i w p =
      frame-Keeps h g P keep i at_node n done w w done p (λ j r q. stay h g P keep j r.0 q)
        (λ v k. k)

  traverse_leaf-Balanced : (k : Kind) (n : NodeId) → Balanced P (traverse_leaf h g k n)
  unfolding traverse_leaf
  traverse_leaf-Balanced k n i w p =
      frame-Keeps h g P keep i k n done w _ (pop_var h g) p (λ j r q. stay h g P keep j r.0 q)
        (pop_var-Keeps h g P keep i w)

  traverse_recurring-Balanced : (n : NodeId) → Balanced P (traverse_recurring_composite_type h g n)
  unfolding traverse_recurring_composite_type
  traverse_recurring-Balanced n i w p =
      frame-Keeps h g P keep i at_recurring_composite_type n done w _ (pop_composite h g) p
        (λ j r q. stay h g P keep j r.0 q) (pop_composite-Keeps h g P keep i w)

  module _ (inv : NodeId → Walk S → Outcome (Walk S × Bool))
      (rec : (n : NodeId) → Balanced P (inv n)) where
    pub traverse_type-Balanced : (t : Option NodeId) → Balanced P (traverse_type h g inv t)
    unfolding traverse_type
    traverse_type-Balanced none i w p = stay h g P keep i w p
    traverse_type-Balanced (some t) i w p =
        >>=-Post (λ r. P i r.0) (KeepsBoth (P i) w) (h.visit_type t w.sub) _
          (keep.visit_type i t w.sub p)
          λ r q.
            let w' = record w { sub = r.0 } in
            let on = with_sub h g P keep i w r.0 q in
            if_intro (Post (KeepsBoth (P i) w)) r.1
              (along h g P keep i w w' (inv t w') on (rec t i w' q)) on

    traverse_variable-Balanced :
        (n : NodeId) (v : Variable) → Balanced P (traverse_variable h g inv n v)
    unfolding traverse_variable
    traverse_variable-Balanced n v i w p =
        frame-Keeps h g P keep i at_variable n _ w w done p
          (λ j r q.
            if_intro (Post (KeepsBoth (P j) r.0)) r.1 (traverse_type-Balanced v.type j r.0 q)
              (stay h g P keep j r.0 q))
          (λ v k. k)

    traverse_derived-Balanced :
        (n : NodeId) (d : DerivedType) → Balanced P (traverse_derived_type h g inv n d)
    unfolding traverse_derived_type
    traverse_derived-Balanced n d i w p =
        frame-Keeps h g P keep i at_derived_type n _ w _ (pop_derived h g) p
          (λ j r q.
            if_intro (Post (KeepsBoth (P j) r.0)) r.1 (traverse_type-Balanced d.base_type j r.0 q)
              (stay h g P keep j r.0 q))
          (pop_derived-Keeps h g P keep i w)

    pub traverse_elements-Keeps :
        (es : List NodeId) (i : I) (w : Walk S)
        → P i w.sub
        → Post (Keeps (P i) w) (traverse_elements h g inv es w)
    unfolding traverse_elements
    traverse_elements-Keeps [] i w p = stay h g P keep i w p
    traverse_elements-Keeps (e ∷ es) i w p =
        >>=-Post (KeepsBoth (P i) w) (Keeps (P i) w) (inv e w) _ (rec e i w p)
          λ r k. weaken h g P keep i w r.0 _ k (traverse_elements-Keeps es i r.0 k.sub)

    traverse_parts-Balanced : (c : CompositeType) → Balanced P (traverse_parts h g inv c)
    unfolding traverse_parts
    traverse_parts-Balanced c i w p =
        >>=-Post (Keeps (P i) w) (KeepsBoth (P i) w) _ _
          (if_intro (Post (Keeps (P i) w)) (c.tag == dw_tag_array_type)
            (traverse_elements-Keeps c.elements i w p) (stay h g P keep i w p))
          λ w1 k1.
            >>=-Post (KeepsBoth (P i) w1) (KeepsBoth (P i) w) _ _
              (traverse_type-Balanced c.base_type i w1 k1.sub)
              λ q k2.
                >>=-Post (Keeps (P i) q.0) (KeepsBoth (P i) w) _ _
                  (if_intro (Post (Keeps (P i) q.0)) (q.1 && not (c.tag == dw_tag_array_type))
                    (traverse_elements-Keeps c.elements i q.0 k2.sub)
                    (stay h g P keep i q.0 k2.sub))
                  λ w2 k3. Keeps-trans h g P keep k1 (Keeps-trans h g P keep k2 k3)

    -- The composite was not on the path, so erasing it restores the set.
    close-Keeps :
        (i : I) (n : NodeId) (c : CompositeType) (w v : Walk S)
        → contains w.visited n ≡ false
        → Keeps (P i) (open_composite h g inv n c w) v
        → Post (Keeps (P i) w) (pop_composite h g (record v { visited = erase n v.visited }))
    unfolding open_composite pop_composite
    close-Keeps i n c w v fresh k =
        ground (arith, erase-absent n w.visited, erase-cons_self n w.visited)

    traverse_composite-Balanced :
        (n : NodeId) (c : CompositeType) → Balanced P (traverse_composite_type h g inv n c)
    unfolding traverse_composite_type traverse_fresh_composite
    traverse_composite-Balanced n c i w p = elim (Bool-cases (contains w.visited n)) [
      | inl old ↦ rw old (traverse_recurring-Balanced n i w p)
      | inr fresh ↦ rw fresh (
          frame-Keeps h g P keep i at_composite_type n _ w _ _ p
            (λ j r q.
              if_intro (Post (KeepsBoth (P j) r.0)) r.1 (traverse_parts-Balanced c j r.0 q)
                (stay h g P keep j r.0 q))
            (λ v k. close-Keeps i n c w v fresh k))
    ]

    dispatch-Balanced : (n : NodeId) (d : DiNode) → Balanced P (dispatch h g inv n d)
    unfolding dispatch
    dispatch-Balanced n (basic b) i w p = traverse_leaf-Balanced at_basic_type n i w p
    dispatch-Balanced n (derived d) i w p = traverse_derived-Balanced n d i w p
    dispatch-Balanced n (composite c) i w p = traverse_composite-Balanced n c i w p
    dispatch-Balanced n (string_type s k) i w p = traverse_leaf-Balanced at_string_type n i w p
    dispatch-Balanced n (local_variable v) i w p = traverse_variable-Balanced n v i w p
    dispatch-Balanced n (global_variable v) i w p = traverse_variable-Balanced n v i w p
    dispatch-Balanced n (enumerator s) i w p = traverse_other-Balanced n i w p
    dispatch-Balanced n (subrange c) i w p = traverse_other-Balanced n i w p
    dispatch-Balanced n (subroutine ts) i w p = traverse_other-Balanced n i w p
    dispatch-Balanced n (other t) i w p = stay h g P keep i w p

  pub invoke_if_any-Balanced : (fuel : ℕ) (n : NodeId) → Balanced P (invoke_if_any h g fuel n)
  unfolding invoke_if_any
  invoke_if_any-Balanced zero n i w p = tt
  invoke_if_any-Balanced (suc fuel) n i w p =
      dispatch-Balanced (invoke_if_any h g fuel) (invoke_if_any-Balanced fuel) n (g n) i w p

  -- A traversal from a node that returns restores the property with the index that it began with, the
  -- visited set and the depths.
  pub traverse_node-Framed :
      (fuel : ℕ) (n : NodeId) (i : I) (w : Walk S)
      → P i w.sub
      → Post (λ r. Keeps (P i) w r.0) (traverse_node h g fuel n w)
  unfolding traverse_node
  traverse_node-Framed fuel n i w p =
      let rec = invoke_if_any-Balanced fuel in
      if_intro (Post (KeepsBoth (P i) w)) (is_traversed_type (g n))
        (traverse_type-Balanced (invoke_if_any h g fuel) rec (some n) i w p)
        (if_intro (Post (KeepsBoth (P i) w)) (is_variable (g n)) (rec n i w p)
          (traverse_other-Balanced n i w p))

-- If the callbacks keep a property of the subclass's state, a traversal from a node that returns keeps
-- it too, and restores the visited set and the three depths.
pub traverse_node-Keeps :
    {S : Type 0} (h : Hooks S) (g : Metadata) (P : S → Type 0)
    → HooksKeep h P
    → (fuel : ℕ) (n : NodeId) (w : Walk S) → P w.sub
    → Post (λ r. Keeps P w r.0) (traverse_node h g fuel n w)
traverse_node-Keeps h g P keep fuel n w p =
    traverse_node-Framed h g (λ (u : Unit {0}). P) (HooksKeep-HooksFrame h P keep) fuel n tt w p
