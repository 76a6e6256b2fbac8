-- ===== src/DimetaParse/Handler.antt =====
-- The handler of events of lib/type/DimetaParse.cpp, and make_dimetadata.
use llvm_dimeta.Base.{
  if◌then◌else◌, has_value, failed_assertion, Outcome, done, fault, ◌>>=◌, ◌>>◌, deref, assert, ℕ,
  String, Bool, true, false, Option, none, some, List, [], ◌∷◌, str_eq,
}
use llvm_dimeta.Metadata.{
  NodeId, BasicType, DiNode, basic, derived, composite, string_type, subroutine, local_variable,
  global_variable, Metadata, as_derived, as_composite,
}
use llvm_dimeta.Visitor.{start, traverse_node}
use llvm_dimeta.QualifiedType.{QualifiedType, qualified_fundamental}
use llvm_dimeta.Parser.{
  MetaData, Event, make_fundamental, make_function_ptr, make_void_ptr, make_string, make_vtable,
  make_enum_member, make_composite, finalize_composite, new_visitor,
}
use llvm_dimeta.Parser.Callbacks.{visit_event, leave_event, event_hooks}
use llvm_dimeta.DimetaParse.Qualify.{
  dwarf2encoding, make_qual_type, make_compound, make_fundamental_type, encoding_of,
}
use llvm_dimeta.DimetaParse.Encoding
use llvm_dimeta.DimetaParse.Stack.{
  DiTypeParser, new_parser, emplace_member, emplace_result, tag_of, is_enum_tag, keep_first_member,
  finalize,
}

-- dyn_cast to a basic type and to a string type, the latter to its name
abbrev pub as_basic : DiNode → Option BasicType
as_basic (basic b) = some b
as_basic _ = none

abbrev pub as_string : DiNode → Option String
as_string (string_type n s) = some n
as_string _ = none

abbrev pub assume {ℓ} : {A : Type ℓ} → Option A → Outcome A
assume none = fault failed_assertion
assume (some a) = done a

module _ (g : Metadata) where
  unfoldable pub emplace_fundamental : MetaData → String → ℕ → DiTypeParser → Outcome DiTypeParser
  unfolding make_fundamental_type make_qual_type emplace_member
  emplace_fundamental m name encoding p = do
    f ← make_fundamental_type g m name encoding
    q ← make_qual_type m
    if m.is_member
        then emplace_member (qualified_fundamental f q) m p
        else done (emplace_result (qualified_fundamental f q) p)

  unfoldable pub emplace_enum : BasicType → MetaData → DiTypeParser → Outcome DiTypeParser
  unfolding emplace_fundamental dwarf2encoding
  emplace_enum b m p = elim p.composite_stack [
    | [] ↦ fault failed_assertion
    | c ∷ rest ↦ do
      assert (is_enum_tag (tag_of c.type))
      r ← emplace_fundamental m b.name (dwarf2encoding b.encoding) p
      elim r.composite_stack [
        | [] ↦ fault failed_assertion
        | d ∷ below ↦
            done
              (record r { composite_stack = record d { type = keep_first_member d.type } ∷ below })
      ]
  ]

  unfoldable pub handle : Event → DiTypeParser → Outcome DiTypeParser
  unfolding emplace_fundamental encoding_of emplace_enum make_qual_type make_compound finalize
  handle (make_fundamental m) p = do
    t ← deref m.type
    b ← assume (as_basic (g t))
    emplace_fundamental m b.name (encoding_of b.name b.encoding) p
  handle (make_function_ptr m) p = emplace_fundamental m "" Encoding.function_ptr p
  handle (make_void_ptr m) p = do
    t ← deref m.type
    assert (has_value (as_derived (g t)))
    emplace_fundamental m "void" Encoding.void p
  handle (make_string m) p = do
    t ← deref m.type
    name ← assume (as_string (g t))
    emplace_fundamental m (if str_eq name "" then "character" else name) Encoding.string p
  handle (make_vtable m) p = do
    t ← deref m.type
    d ← assume (as_derived (g t))
    assert m.is_member
    emplace_fundamental m d.name Encoding.vtable_ptr p
  handle (make_enum_member m) p = do
    t ← deref m.type
    b ← assume (as_basic (g t))
    emplace_enum b m p
  handle (make_composite m) p = do
    t ← deref m.type
    c ← assume (as_composite (g t))
    q ← make_qual_type m
    done (record p {
      composite_stack = record { type = make_compound c; qualification = q } ∷ p.composite_stack;
    })
  handle (finalize_composite m) p = elim p.composite_stack [
    | [] ↦ fault failed_assertion
    | c ∷ rest ↦ finalize m c rest p
  ]

  -- The events in the order in which they are raised; the last is the head.
  unfoldable pub handle_all : List Event → Outcome DiTypeParser
  unfolding handle
  handle_all [] = done new_parser
  handle_all (e ∷ es) = handle_all es >>= handle e

  abbrev pub is_parsed : DiNode → Bool
  is_parsed (basic b) = true
  is_parsed (derived d) = true
  is_parsed (composite c) = true
  is_parsed (string_type n s) = true
  is_parsed (subroutine ts) = true
  is_parsed (local_variable v) = true
  is_parsed (global_variable v) = true
  is_parsed _ = false

  unfoldable pub make_dimetadata : ℕ → NodeId → Outcome (Option QualifiedType)
  unfolding traverse_node visit_event leave_event handle_all
  make_dimetadata fuel n =
      if is_parsed (g n)
      then (do
        r ← traverse_node (event_hooks g) g fuel n (start new_visitor)
        p ← handle_all r.0.sub.events
        done (some p.result))
      else done none
