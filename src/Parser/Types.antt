-- ===== src/Parser/Types.antt =====
-- The callbacks of DIEventVisitor in lib/type/DIParser.cpp for basic, string, derived and composite types.
use llvm_dimeta.Base.{
  ◌==◌, if◌then◌else◌, has_value, test_bit, failed_assertion, Outcome, done, fault, ◌>>◌, assert,
  ◌/◌, Bool, true, false, not, ◌&&◌, ◌||◌, none, some, List, [], ◌∷◌, ◌++◌, str_eq,
}
use llvm_dimeta.Metadata.{
  dw_tag_array_type, dw_tag_enumeration_type, dw_tag_member, dw_tag_pointer_type, dw_tag_typedef,
  dw_tag_inheritance, dw_tag_variable, flag_fwd_decl_bit, flag_vector_bit, NodeId, DerivedType,
  CompositeType, is_static_member,
}
use llvm_dimeta.Parser.{
  vector_tag, MetaData, no_meta_data, make_fundamental, make_void_ptr, make_string, make_vtable,
  make_composite, finalize_composite, EventVisitor, raise, clear, not_empty, change_back,
}

unfoldable pub visit_basic_type : NodeId → EventVisitor → Outcome (EventVisitor × Bool)
visit_basic_type n s =
    let c = record s.current { type = some n } in
    let s1 = record s { current = c } in
    assert (not c.is_member || not_empty s.stack)
    >> done (
      if s.is_enum then record s1 { enum_base = some n } else raise (make_fundamental c) s1,
      true,
    )

unfoldable pub visit_string_type : NodeId → EventVisitor → Outcome (EventVisitor × Bool)
visit_string_type n s =
    let c = record s.current { type = some n } in
    done (raise (make_string c) (record s { current = c }), true)

-- The lambda make_member
unfoldable pub make_member : DerivedType → MetaData → MetaData
make_member d c = record c {
  member_name = d.name;
  is_member = true;
  member_offset = d.offset_in_bits / 8;
  member_size = d.size_in_bits / 8;
  is_member_static = is_static_member d;
}

-- The switch of visitDerivedType
unfoldable pub note_derived : DerivedType → MetaData → MetaData
unfolding make_member
note_derived d c =
    if d.tag == dw_tag_member
    then make_member d c
    else if d.tag == dw_tag_variable
    then (if is_static_member d then make_member d c else c)
    else if d.tag == dw_tag_typedef
    then record c { typedef_names = c.typedef_names ++ d.name ∷ [] }
    else if d.tag == dw_tag_inheritance
    then record c { is_base_class = true; member_offset = d.offset_in_bits / 8 }
    else if d.tag == dw_tag_pointer_type
    then record c {
      dwarf_tags = c.dwarf_tags ++ d.tag ∷ [];
      arrays = change_back (λ a. record a { array_of_pointer = d.size_in_bits }) c.arrays;
    }
    else record c { dwarf_tags = c.dwarf_tags ++ d.tag ∷ [] }

unfoldable pub visit_derived_type :
    NodeId → DerivedType → EventVisitor → Outcome (EventVisitor × Bool)
unfolding note_derived
visit_derived_type n d s =
    let c = note_derived d (record s.current { derived_size = d.size_in_bits / 8 }) in
    let s1 = record s { current = c } in
    if d.tag == dw_tag_pointer_type && not (has_value d.base_type)
    then done
        (clear (raise (make_void_ptr (record c { type = some n; is_void_ptr = true })) s1), true)
    else if str_eq d.name "__vtbl_ptr_type"
    then assert (not_empty s.stack)
      >> done (clear (raise (make_vtable (record c { type = some n })) s1), true)
    else done (s1, true)

-- The metadata of a composite that is opened
abbrev pub opened : NodeId → CompositeType → MetaData → MetaData
opened n c current = record current {
  type = some n;
  has_vtable = elim c.vtable_holder [ none ↦ false | some h ↦ h == n ];
  is_forward_decl = test_bit c.flags flag_fwd_decl_bit;
}

unfoldable pub visit_composite_type :
    NodeId → CompositeType → EventVisitor → Outcome (EventVisitor × Bool)
visit_composite_type n c s =
    if c.tag == dw_tag_array_type
    then done (
      record s {
        current = record s.current {
          is_vector = test_bit c.flags flag_vector_bit;
          dwarf_tags =
              s.current.dwarf_tags
              ++ (if test_bit c.flags flag_vector_bit then vector_tag else dw_tag_array_type)
                ∷ (if c.associated then dw_tag_pointer_type ∷ [] else []);
          arrays =
              s.current.arrays
              ++ record {
                array_size_bits = c.size_in_bits;
                array_of_pointer = 0;
                subranges = [];
                is_vector = test_bit c.flags flag_vector_bit;
              }
                ∷ [];
        };
      },
      true,
    )
    else let m = opened n c s.current in
      done (
        record s {
          current = no_meta_data;
          stack = m ∷ s.stack;
          is_enum = c.tag == dw_tag_enumeration_type;
          events = make_composite m ∷ s.events;
        },
        true,
      )

-- The assertions of leaveCompositeType, `rest` being the stack without its top: only a member or a base
-- class stands inside another composite, and each of them does.
abbrev pub may_close : MetaData → List MetaData → Bool
may_close m rest =
    (not m.is_member || not_empty rest)
    && (not m.is_base_class || not_empty rest)
    && (m.is_member || m.is_base_class || not (not_empty rest))

abbrev pub closed : EventVisitor → MetaData → List MetaData → EventVisitor
closed s m rest = record s {
  stack = rest;
  events = finalize_composite m ∷ s.events;
  enum_base = none;
  is_enum = false;
}

-- The end of leaveCompositeType: the composite on top of the stack is finalized.
unfoldable pub close_top : EventVisitor → List MetaData → Outcome EventVisitor
close_top s [] = fault failed_assertion
close_top s (m ∷ rest) = assert (may_close m rest) >> done (closed s m rest)

unfoldable pub leave_composite_type : CompositeType → EventVisitor → Outcome EventVisitor
unfolding close_top
leave_composite_type c s = if c.tag == dw_tag_array_type then done s else close_top s s.stack
