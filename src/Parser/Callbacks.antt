-- ===== src/Parser/Callbacks.antt =====
-- The callbacks of DIEventVisitor in lib/type/DIParser.cpp for the other nodes, their table, and visit_node.
use llvm_dimeta.Base.{
  if◌then◌else◌, reverse, failed_assertion, Outcome, done, fault, ◌>>=◌, ◌>>◌, assert, ℕ, ◌/◌,
  String, Bool, true, false, Option, none, some, List, [], ◌∷◌, ◌++◌,
}
use llvm_dimeta.Metadata.{
  NodeId, DiNode, subroutine, enumerator, subrange, Metadata, get_size_in_bits, as_derived,
  as_composite, Ptr,
}
use llvm_dimeta.Visitor.{
  Kind, at_node, at_variable, at_basic_type, at_string_type, at_derived_type, at_composite_type,
  at_recurring_composite_type, Hooks, default_hooks, start, traverse_node,
}
use llvm_dimeta.Parser.{
  MetaData, Event, make_function_ptr, make_enum_member, EventVisitor, new_visitor, raise, clear,
  not_empty, change_back,
}
use llvm_dimeta.Parser.Types.{
  visit_basic_type, visit_string_type, visit_derived_type, visit_composite_type,
  leave_composite_type,
}

module _ (g : Metadata) where
  -- visitNode at an enumerator whose base type is known
  abbrev pub note_enumerator : String → NodeId → MetaData → MetaData
  note_enumerator name b c = record c {
    member_name = name;
    member_offset = 0;
    member_size = get_size_in_bits (g b) / 8;
    type = some b;
    is_member = true;
  }

  abbrev pub enumerate : String → Ptr → EventVisitor → Outcome (EventVisitor × Bool)
  enumerate name none s = fault failed_assertion
  enumerate name (some b) s =
      let c = note_enumerator name b s.current in
      done (raise (make_enum_member c) (record s { current = c }), true)

  -- A negative count stands for an array of unknown size.
  abbrev pub add_subrange :
      Option (record { is_negative : Bool; limited_value : ℕ }) → MetaData → MetaData
  add_subrange none c = c
  add_subrange (some k) c = record c {
    arrays =
        change_back
          (λ a. record a {
            subranges = a.subranges ++ (if k.is_negative then 0 else k.limited_value) ∷ [];
          })
          c.arrays;
  }

  -- visitNode; the assertion on the arrays stands before the count is looked at.
  unfoldable pub visit_other_node : NodeId → DiNode → EventVisitor → Outcome (EventVisitor × Bool)
  visit_other_node n (enumerator name) s = enumerate name s.enum_base s
  visit_other_node n (subrange count) s =
      assert (not_empty s.current.arrays)
      >> done (record s { current = add_subrange count s.current }, true)
  visit_other_node n (subroutine types) s =
      let c = record s.current { type = some n } in
      done (raise (make_function_ptr c) (record s { current = c }), true)
  visit_other_node n node s = done (s, true)

  -- The callbacks at a composite, which is marked as recurring by `recurs`
  abbrev pub visit_composite : Bool → NodeId → EventVisitor → Outcome (EventVisitor × Bool)
  visit_composite recurs n s = elim (as_composite (g n)) [
    | none ↦ done (s, true)
    | some c ↦
        visit_composite_type n c
          (if recurs then record s { current = record s.current { is_recurring = true } } else s)
  ]

  abbrev pub leave_composite : NodeId → EventVisitor → Outcome EventVisitor
  leave_composite n s = elim (as_composite (g n)) [
    | none ↦ done s
    | some c ↦ leave_composite_type c s
  ]

  unfoldable pub visit_event : Kind → NodeId → EventVisitor → Outcome (EventVisitor × Bool)
  unfolding visit_basic_type visit_string_type visit_derived_type visit_composite_type
      visit_other_node
  visit_event at_node n s = visit_other_node n (g n) s
  visit_event at_basic_type n s = visit_basic_type n s
  visit_event at_string_type n s = visit_string_type n s
  visit_event at_derived_type n s = elim (as_derived (g n)) [
    | none ↦ done (s, true)
    | some d ↦ visit_derived_type n d s
  ]
  visit_event at_composite_type n s = visit_composite false n s
  visit_event at_recurring_composite_type n s = visit_composite true n s
  visit_event at_variable n s = done (s, true)

  abbrev pub is_subroutine : DiNode → Bool
  is_subroutine (subroutine ts) = true
  is_subroutine _ = false

  unfoldable pub leave_event : Kind → NodeId → EventVisitor → Outcome EventVisitor
  unfolding leave_composite_type
  leave_event at_node n s = done (if is_subroutine (g n) then clear s else s)
  leave_event at_basic_type n s = done (clear s)
  leave_event at_string_type n s = done (clear s)
  leave_event at_composite_type n s = leave_composite n s
  leave_event at_recurring_composite_type n s = leave_composite n s
  leave_event k n s = done s

  abbrev pub event_hooks : Hooks EventVisitor
  event_hooks = record (default_hooks EventVisitor) { visit = visit_event; leave = leave_event }

  -- visit_node: the events, the first at the head
  unfoldable pub visit_node : ℕ → NodeId → Outcome (List Event)
  unfolding traverse_node visit_event leave_event
  visit_node fuel n = do
    r ← traverse_node event_hooks g fuel n (start new_visitor)
    done (reverse r.0.sub.events)
