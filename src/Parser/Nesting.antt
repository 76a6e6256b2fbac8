-- ===== src/Parser/Nesting.antt =====
-- The events of lib/type/DIParser.cpp nest: a composite is closed with the metadata that it was opened
-- with.
use llvm_dimeta.Base.{
  ◌==◌, Bool-cases, Option-cases, has_value, if_intro, Outcome, done, Post, Post-map, Post-assert,
  ℕ, String, ◌≡◌, refl, sym, ap, subst, inl, inr, Bool, true, false, not, ◌&&◌, ◌||◌, none, some,
  List, [], ◌∷◌, str_eq,
}
use llvm_dimeta.Metadata.{
  dw_tag_array_type, dw_tag_pointer_type, NodeId, DerivedType, CompositeType, DiNode, subroutine,
  enumerator, subrange, Metadata, as_derived, as_composite, Ptr,
}
use llvm_dimeta.Visitor.{
  Kind, at_node, at_variable, at_basic_type, at_string_type, at_derived_type, at_composite_type,
  at_recurring_composite_type, start, traverse_node,
}
use llvm_dimeta.Visitor.Frame.{HooksFrame}
use llvm_dimeta.Visitor.Balance.{traverse_node-Framed}
use llvm_dimeta.Parser.Types.{
  visit_basic_type, visit_string_type, visit_derived_type, opened, visit_composite_type, may_close,
  closed, close_top, leave_composite_type,
}
use llvm_dimeta.Parser.Callbacks.{
  enumerate, visit_other_node, visit_composite, leave_composite, visit_event, is_subroutine,
  leave_event, event_hooks,
}
use llvm_dimeta.Parser.{
  MetaData, Event, make_composite, finalize_composite, EventVisitor, new_visitor, not_empty,
}

abbrev pub is_plain : Event → Bool
is_plain (make_composite m) = false
is_plain (finalize_composite m) = false
is_plain e = true

-- The events, the last at the head, nest, and the composites of the list are open.
pub data Nested : List Event → List MetaData → Type 0 where
  nothing : Nested [] []
  plain :
      (e : Event) {es : List Event} {open_ones : List MetaData}
      → is_plain e ≡ true
      → Nested es open_ones
      → Nested (e ∷ es) open_ones
  opens :
      (m : MetaData) {es : List Event} {open_ones : List MetaData}
      → Nested es open_ones
      → Nested (make_composite m ∷ es) (m ∷ open_ones)
  closes :
      (m : MetaData) {es : List Event} {open_ones : List MetaData}
      → Nested es (m ∷ open_ones)
      → Nested (finalize_composite m ∷ es) open_ones

-- The state between events: those so far nest, and the open composites are the stack.
abbrev pub InOrder : List MetaData → EventVisitor → Type 0
InOrder open_ones s = Nested s.events open_ones × (s.stack ≡ open_ones)

-- The same for the state that a callback returns together with its answer
abbrev InOrderBoth : List MetaData → EventVisitor × Bool → Type 0
InOrderBoth o r = InOrder o r.0

visit_basic_type-InOrder :
    (o : List MetaData) (n : NodeId) (s : EventVisitor)
    → InOrder o s
    → Post (InOrderBoth o) (visit_basic_type n s)
unfolding visit_basic_type
visit_basic_type-InOrder o n s k =
    Post-assert (InOrderBoth o) (not s.current.is_member || not_empty s.stack) _
      (if_intro (InOrder o) s.is_enum k (plain _ refl k.0, k.1))

visit_derived_type-InOrder :
    (o : List MetaData) (n : NodeId) (d : DerivedType) (s : EventVisitor)
    → InOrder o s
    → Post (InOrderBoth o) (visit_derived_type n d s)
unfolding visit_derived_type
visit_derived_type-InOrder o n d s k =
    if_intro (Post (InOrderBoth o)) (d.tag == dw_tag_pointer_type && not (has_value d.base_type))
      (plain _ refl k.0, k.1)
      (if_intro (Post (InOrderBoth o)) (str_eq d.name "__vtbl_ptr_type")
        (Post-assert (InOrderBoth o) (not_empty s.stack) _ (plain _ refl k.0, k.1)) k)

close_top-InOrder :
    (o : List MetaData) (m : MetaData) (s : EventVisitor)
    → InOrder (m ∷ o) s
    → Post (InOrder o) (close_top s s.stack)
unfolding close_top
close_top-InOrder o m s k =
    subst (λ st. Post (InOrder o) (close_top s st)) (sym k.1)
      (Post-assert (InOrder o) (may_close m o) (done (closed s m o)) (closes m k.0, refl))

module _ (g : Metadata) where
  enumerate-InOrder :
      (o : List MetaData) (name : String) (b : Ptr) (s : EventVisitor)
      → InOrder o s
      → Post (InOrderBoth o) (enumerate g name b s)
  enumerate-InOrder o name none s k = tt
  enumerate-InOrder o name (some b) s k = (plain _ refl k.0, k.1)

  visit_other_node-InOrder :
      (o : List MetaData) (n : NodeId) (node : DiNode) (s : EventVisitor)
      → InOrder o s
      → Post (InOrderBoth o) (visit_other_node g n node s)
  unfolding visit_other_node
  visit_other_node-InOrder o n (enumerator name) s k = enumerate-InOrder o name s.enum_base s k
  visit_other_node-InOrder o n (subrange count) s k =
      Post-assert (InOrderBoth o) (not_empty s.current.arrays) _ k
  visit_other_node-InOrder o n (subroutine types) s k = (plain _ refl k.0, k.1)
  visit_other_node-InOrder o n node s k = k

  -- What a callback at a composite leaves, and that leaving the composite undoes it
  abbrev Opened : List MetaData → NodeId → EventVisitor × Bool → Type 0
  Opened o n r =
      (o' : List MetaData) × InOrder o' r.0
      × ((s' : EventVisitor) → InOrder o' s' → Post (InOrder o) (leave_composite g n s'))

  opens_composite :
      (o : List MetaData) (n : NodeId) (c : CompositeType) (s : EventVisitor)
      → as_composite (g n) ≡ some c
      → InOrder o s
      → Post (Opened o n) (visit_composite_type n c s)
  unfolding visit_composite_type leave_composite_type
  opens_composite o n c s e k = elim (Bool-cases (c.tag == dw_tag_array_type)) [
    | inl is_array ↦
        rw (is_array, visit_composite_type)
          (o, k, λ s' k'. rw (e, leave_composite) (rw (is_array, leave_composite_type) k'))
    | inr is_scope ↦
        rw (is_scope, visit_composite_type)
          (
            opened n c s.current ∷ o,
            (opens (opened n c s.current) k.0, ap (λ st. opened n c s.current ∷ st) k.1),
            λ s' k'.
                rw (e, leave_composite)
                  (rw (is_scope, leave_composite_type)
                    (close_top-InOrder o (opened n c s.current) s' k')),
          )
  ]

  visit_composite-Opened :
      (o : List MetaData) (recurs : Bool) (n : NodeId) (s : EventVisitor)
      → InOrder o s
      → Post (Opened o n) (visit_composite g recurs n s)
  visit_composite-Opened o recurs n s k = elim (Option-cases (as_composite (g n))) [
    | inl e ↦ rw (e, visit_composite) (o, k, λ s' k'. rw (e, leave_composite) k')
    | inr (c, e) ↦
        rw (e, visit_composite) (opens_composite o n c _ e (if_intro (InOrder o) recurs k k))
  ]

  -- A callback that opens nothing: leaving keeps the order.
  same_frame :
      (o : List MetaData) (k : Kind) (n : NodeId) (m : Outcome (EventVisitor × Bool))
      → Post (InOrderBoth o) m
      → ((s' : EventVisitor) → InOrder o s' → Post (InOrder o) (leave_event g k n s'))
      → Post
          (λ r.
            (o' : List MetaData) × InOrder o' r.0
            × ((s' : EventVisitor) → InOrder o' s' → Post (InOrder o) (leave_event g k n s')))
          m
  same_frame o k n m h l = Post-map (λ r q. (o, q, l)) m h

  visit_event-Frame :
      (o : List MetaData) (k : Kind) (n : NodeId) (s : EventVisitor)
      → InOrder o s
      → Post
          (λ r.
            (o' : List MetaData) × InOrder o' r.0
            × ((s' : EventVisitor) → InOrder o' s' → Post (InOrder o) (leave_event g k n s')))
          (visit_event g k n s)
  unfolding visit_event leave_event visit_string_type
  visit_event-Frame o at_node n s h =
      same_frame o at_node n _ (visit_other_node-InOrder o n (g n) s h)
        (λ s' k. if_intro (InOrder o) (is_subroutine g (g n)) k k)
  visit_event-Frame o at_basic_type n s h =
      same_frame o at_basic_type n _ (visit_basic_type-InOrder o n s h) (λ s' k. k)
  visit_event-Frame o at_string_type n s h = (o, (plain _ refl h.0, h.1), λ s' k. k)
  visit_event-Frame o at_derived_type n s h = elim (Option-cases (as_derived (g n))) [
    | inl e ↦ rw (e, visit_event) (o, h, λ s' k. k)
    | inr (d, e) ↦
        rw (e, visit_event)
          (same_frame o at_derived_type n _ (visit_derived_type-InOrder o n d s h) (λ s' k. k))
  ]
  visit_event-Frame o at_composite_type n s h = visit_composite-Opened o false n s h
  visit_event-Frame o at_recurring_composite_type n s h = visit_composite-Opened o true n s h
  visit_event-Frame o at_variable n s h = (o, h, λ s' k. k)

  event_hooks-Frame : HooksFrame (event_hooks g) InOrder
  event_hooks-Frame = record {
    enter = λ o k n s h. h;
    visit = visit_event-Frame;
    visit_type = λ o n s h. h;
  }

  -- If the parser's traversal from a node returns, its events nest and are closed: each composite is
  -- finalized with the metadata that it was opened with, after all that was opened inside it. The stack
  -- and the visited set are empty again.
  pub parser-Nested :
      (fuel : ℕ) (n : NodeId)
      → Post
          (λ r. Nested r.0.sub.events [] × (r.0.sub.stack ≡ []) × (r.0.visited ≡ []))
          (traverse_node (event_hooks g) g fuel n (start new_visitor))
  parser-Nested fuel n =
      Post-map (λ r k. (k.sub.0, k.sub.1, k.visited))
        (traverse_node (event_hooks g) g fuel n (start new_visitor))
        (traverse_node-Framed (event_hooks g) g InOrder event_hooks-Frame fuel n []
          (start new_visitor) (nothing, refl))
