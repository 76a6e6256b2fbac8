-- ===== src/Visitor.antt =====
-- lib/type/DIVisitor.h: the depth-first traversal of debug metadata. The class template takes its
-- callbacks from its subclass; here they are the record `Hooks` over the subclass's state.
pub mod Cost
pub mod Ends
pub mod Frame
pub mod Balance
pub mod Below
pub mod Termination
use llvm_dimeta.Base.{
  ltb, ◌==◌, if◌then◌else◌, contains, erase, Outcome, done, out_of_fuel, ◌>>=◌, ◌>>◌, assert, ℕ,
  zero, suc, ◌-◌, Bool, true, false, not, ◌&&◌, Option, none, some, List, [], ◌∷◌,
}
use llvm_dimeta.Metadata.{
  dw_tag_array_type, NodeId, DerivedType, CompositeType, Variable, DiNode, basic, derived,
  composite, string_type, subroutine, enumerator, subrange, local_variable, global_variable, other,
  Metadata,
}

-- The overloads of enterX, visitX and leaveX.
pub data Kind : Type 0 where
  at_node at_variable at_basic_type at_string_type at_derived_type at_composite_type : Kind
  at_recurring_composite_type : Kind

pub record Hooks (S : Type 0) : Type 0 where
  pub enter : Kind → NodeId → S → Outcome S
  pub visit : Kind → NodeId → S → Outcome (S × Bool)
  pub leave : Kind → NodeId → S → Outcome S
  pub visit_type : NodeId → S → Outcome (S × Bool)

-- The callbacks that a subclass does not hide: they do nothing and go on.
abbrev pub default_hooks : (S : Type 0) → Hooks S
default_hooks S = record {
  enter = λ k n s. done s;
  visit = λ k n s. done (s, true);
  leave = λ k n s. done s;
  visit_type = λ n s. done (s, true);
}

-- The visitor: the subclass's state, the composites on the path from the root, and the depths.
pub record Walk (S : Type 0) : Type 0 where
  pub sub : S
  pub visited : List NodeId
  pub depth_composite : ℕ
  pub depth_derived : ℕ
  pub depth_var : ℕ

abbrev pub start : {S : Type 0} → S → Walk S
start s = record { sub = s; visited = []; depth_composite = 0; depth_derived = 0; depth_var = 0 }

-- A type that is no subroutine type
abbrev pub is_traversed_type : DiNode → Bool
is_traversed_type (basic b) = true
is_traversed_type (derived d) = true
is_traversed_type (composite c) = true
is_traversed_type (string_type s k) = true
is_traversed_type _ = false

abbrev pub is_variable : DiNode → Bool
is_variable (local_variable v) = true
is_variable (global_variable v) = true
is_variable _ = false

module _ {S : Type 0} (h : Hooks S) (g : Metadata) where
  unfoldable pub enter_hook : Kind → NodeId → Walk S → Outcome (Walk S)
  enter_hook k n w = do s ← h.enter k n w.sub; done (record w { sub = s })

  unfoldable pub visit_hook : Kind → NodeId → Walk S → Outcome (Walk S × Bool)
  visit_hook k n w = do r ← h.visit k n w.sub; done (record w { sub = r.0 }, r.1)

  unfoldable pub leave_hook : Kind → NodeId → Walk S → Outcome (Walk S)
  leave_hook k n w = do s ← h.leave k n w.sub; done (record w { sub = s })

  -- What the scope exits do after leaveX: check the depth and count it down.
  unfoldable pub pop_var : Walk S → Outcome (Walk S)
  pop_var w = do assert (ltb 0 w.depth_var); done (record w { depth_var = w.depth_var - 1 })

  unfoldable pub pop_derived : Walk S → Outcome (Walk S)
  pop_derived w = do
    assert (ltb 0 w.depth_derived)
    done (record w { depth_derived = w.depth_derived - 1 })

  unfoldable pub pop_composite : Walk S → Outcome (Walk S)
  pop_composite w = do
    assert (ltb 0 w.depth_composite)
    done (record w { depth_composite = w.depth_composite - 1 })

  -- The end of traverseNode, for what is neither a type nor a variable, and for subroutine types
  unfoldable pub traverse_other : NodeId → Walk S → Outcome (Walk S × Bool)
  unfolding enter_hook visit_hook leave_hook
  traverse_other n w = do
    w1 ← enter_hook at_node n w
    r ← visit_hook at_node n w1
    w2 ← leave_hook at_node n r.0
    done (w2, r.1)

  -- traverseBasicType and traverseStringType
  unfoldable pub traverse_leaf : Kind → NodeId → Walk S → Outcome (Walk S × Bool)
  unfolding enter_hook visit_hook leave_hook pop_var
  traverse_leaf k n w = do
    w1 ← enter_hook k n (record w { depth_var = suc w.depth_var })
    r ← visit_hook k n w1
    w2 ← leave_hook k n r.0
    w3 ← pop_var w2
    done (w3, r.1)

  unfoldable pub traverse_recurring_composite_type : NodeId → Walk S → Outcome (Walk S × Bool)
  unfolding enter_hook visit_hook leave_hook pop_composite
  traverse_recurring_composite_type n w = do
    w1 ←
        enter_hook at_recurring_composite_type n
          (record w { depth_composite = suc w.depth_composite })
    r ← visit_hook at_recurring_composite_type n w1
    w2 ← leave_hook at_recurring_composite_type n r.0
    w3 ← pop_composite w2
    done (w3, r.1)

  -- The functions below call `invoke_if_any` on what a node refers to; it is their argument `inv`.
  module _ (inv : NodeId → Walk S → Outcome (Walk S × Bool)) where
    unfoldable pub traverse_type : Option NodeId → Walk S → Outcome (Walk S × Bool)
    traverse_type none w = done (w, true)
    traverse_type (some t) w = do
      r ← h.visit_type t w.sub
      if r.1 then inv t (record w { sub = r.0 }) else done (record w { sub = r.0 }, false)

    unfoldable pub traverse_variable : NodeId → Variable → Walk S → Outcome (Walk S × Bool)
    unfolding enter_hook visit_hook leave_hook traverse_type
    traverse_variable n v w = do
      w1 ← enter_hook at_variable n w
      r ← visit_hook at_variable n w1
      q ← (if r.1 then traverse_type v.type r.0 else done (r.0, false))
      w2 ← leave_hook at_variable n q.0
      done (w2, q.1)

    unfoldable pub traverse_derived_type : NodeId → DerivedType → Walk S → Outcome (Walk S × Bool)
    unfolding enter_hook visit_hook leave_hook pop_derived traverse_type
    traverse_derived_type n d w = do
      w1 ← enter_hook at_derived_type n (record w { depth_derived = suc w.depth_derived })
      r ← visit_hook at_derived_type n w1
      q ← (if r.1 then traverse_type d.base_type r.0 else done (r.0, false))
      w2 ← leave_hook at_derived_type n q.0
      w3 ← pop_derived w2
      done (w3, q.1)

    -- `for (auto* eleme : ...) invoke_if_any(eleme);`, the results are not looked at
    unfoldable pub traverse_elements : List NodeId → Walk S → Outcome (Walk S)
    traverse_elements [] w = done w
    traverse_elements (e ∷ es) w = do r ← inv e w; traverse_elements es r.0

    -- The rest of traverseCompositeType after visitCompositeType: an array's elements, its subranges,
    -- come before its base type, the elements of another composite after it.
    unfoldable pub traverse_parts : CompositeType → Walk S → Outcome (Walk S × Bool)
    unfolding traverse_type traverse_elements
    traverse_parts c w =
        let is_array = c.tag == dw_tag_array_type in
        do
          w1 ← (if is_array then traverse_elements c.elements w else done w)
          q ← traverse_type c.base_type w1
          w2 ← (if q.1 && not is_array then traverse_elements c.elements q.0 else done q.0)
          done (w2, q.1)

    unfoldable pub open_composite : NodeId → CompositeType → Walk S → Walk S
    open_composite n c w = record w {
      depth_composite = suc w.depth_composite;
      visited = if c.tag == dw_tag_array_type then w.visited else n ∷ w.visited;
    }

    unfoldable pub traverse_fresh_composite :
        NodeId → CompositeType → Walk S → Outcome (Walk S × Bool)
    unfolding enter_hook visit_hook leave_hook pop_composite traverse_parts open_composite
    traverse_fresh_composite n c w = do
      w1 ← enter_hook at_composite_type n (open_composite n c w)
      r ← visit_hook at_composite_type n w1
      q ← (if r.1 then traverse_parts c r.0 else done (r.0, false))
      w2 ← leave_hook at_composite_type n q.0
      w3 ← pop_composite (record w2 { visited = erase n w2.visited })
      done (w3, q.1)

    -- A composite that is on the path already recurs, and its elements are not traversed again.
    unfoldable pub traverse_composite_type :
        NodeId → CompositeType → Walk S → Outcome (Walk S × Bool)
    unfolding traverse_recurring_composite_type traverse_fresh_composite
    traverse_composite_type n c w =
        if contains w.visited n
        then traverse_recurring_composite_type n w
        else traverse_fresh_composite n c w

    -- The alternatives of invoke_if_any, by the class of the node
    unfoldable pub dispatch : NodeId → DiNode → Walk S → Outcome (Walk S × Bool)
    unfolding traverse_other traverse_leaf traverse_variable traverse_derived_type
        traverse_composite_type
    dispatch n (basic b) w = traverse_leaf at_basic_type n w
    dispatch n (derived d) w = traverse_derived_type n d w
    dispatch n (composite c) w = traverse_composite_type n c w
    dispatch n (string_type s k) w = traverse_leaf at_string_type n w
    dispatch n (local_variable v) w = traverse_variable n v w
    dispatch n (global_variable v) w = traverse_variable n v w
    dispatch n (enumerator s) w = traverse_other n w
    dispatch n (subrange c) w = traverse_other n w
    dispatch n (subroutine ts) w = traverse_other n w
    dispatch n (other t) w = done (w, false)

  -- The recursion, on fuel: `Visitor.Termination` says how much is enough.
  unfoldable pub invoke_if_any : ℕ → NodeId → Walk S → Outcome (Walk S × Bool)
  unfolding dispatch
  invoke_if_any zero n w = out_of_fuel
  invoke_if_any (suc fuel) n w = dispatch (invoke_if_any fuel) n (g n) w

  -- traverseNode calls visitType for a type; it visits any node that is no type and no variable.
  unfoldable pub traverse_node : ℕ → NodeId → Walk S → Outcome (Walk S × Bool)
  unfolding invoke_if_any traverse_type traverse_other
  traverse_node fuel n w =
      if is_traversed_type (g n)
      then traverse_type (invoke_if_any fuel) (some n) w
      else if is_variable (g n)
      then invoke_if_any fuel n w
      else traverse_other n w
