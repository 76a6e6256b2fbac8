-- ===== src/DimetaParse/Builder.antt =====
-- What the handler in lib/type/DimetaParse.cpp is to build, without a stack: a recursive function over the
-- events as a tree, a composite with what is between the events that open and close it.
use llvm_dimeta.Base.{
  if◌then◌else◌, has_value, failed_assertion, Outcome, done, fault, ◌>>=◌, ◌>>◌, deref, assert, ℕ,
  String, Option, none, some, str_eq,
}
use llvm_dimeta.Metadata.{Metadata, as_derived, as_composite}
use llvm_dimeta.QualifiedType.{QualifiedType, qualified_compound, qualified_fundamental}
use llvm_dimeta.Parser.{
  MetaData, Event, make_fundamental, make_function_ptr, make_void_ptr, make_string, make_vtable,
  make_enum_member, make_composite, finalize_composite,
}
use llvm_dimeta.DimetaParse.Encoding
use llvm_dimeta.DimetaParse.Qualify.{
  dwarf2encoding, make_qual_type, make_compound, make_fundamental_type, encoding_of,
}
use llvm_dimeta.DimetaParse.Stack.{
  QualifiedCompound, new_parser, add_member, tag_of, is_enum_tag, keep_first_member, add_base,
}
use llvm_dimeta.DimetaParse.Handler.{as_basic, as_string, assume}

-- The children of a node are a list that grows at its end.
mutual
  pub data Tree : Type 0 where
    leaf : Event → Tree
    node : MetaData → Forest → Tree

  pub data Forest : Type 0 where
    no_trees : Forest
    then_tree : Forest → Tree → Forest

-- A type that is built is the last member of the composite around it, or the result.
pub record Site : Type 0 where
  pub result : QualifiedType
  pub around : Option QualifiedCompound

-- Put a type at a site.
unfoldable pub place : MetaData → QualifiedType → Site → Outcome Site
unfolding add_member
place m t s =
    if m.is_member
    then elim s.around [
      | none ↦ fault failed_assertion
      | some c ↦ done (record s { around = some (record c { type = add_member m t c.type }) })
    ]
    else done (record s { result = t })

module _ (g : Metadata) where
  unfoldable pub build_fundamental : MetaData → String → ℕ → Site → Outcome Site
  unfolding make_fundamental_type make_qual_type place
  build_fundamental m name encoding s = do
    f ← make_fundamental_type g m name encoding
    q ← make_qual_type m
    place m (qualified_fundamental f q) s

  -- An enumeration has the size and the offset of its first member only.
  unfoldable pub trim_enum : Site → Outcome Site
  trim_enum s = elim s.around [
    | none ↦ fault failed_assertion
    | some c ↦ done (record s { around = some (record c { type = keep_first_member c.type }) })
  ]

  abbrev pub in_enum : Site → Outcome (Unit {0})
  in_enum s = elim s.around [
    | none ↦ fault failed_assertion
    | some c ↦ assert (is_enum_tag (tag_of c.type))
  ]

  unfoldable pub build_leaf : Event → Site → Outcome Site
  unfolding build_fundamental trim_enum encoding_of dwarf2encoding
  build_leaf (make_fundamental m) s = do
    t ← deref m.type
    b ← assume (as_basic (g t))
    build_fundamental m b.name (encoding_of b.name b.encoding) s
  build_leaf (make_function_ptr m) s = build_fundamental m "" Encoding.function_ptr s
  build_leaf (make_void_ptr m) s = do
    t ← deref m.type
    assert (has_value (as_derived (g t)))
    build_fundamental m "void" Encoding.void s
  build_leaf (make_string m) s = do
    t ← deref m.type
    name ← assume (as_string (g t))
    build_fundamental m (if str_eq name "" then "character" else name) Encoding.string s
  build_leaf (make_vtable m) s = do
    t ← deref m.type
    d ← assume (as_derived (g t))
    assert m.is_member
    build_fundamental m d.name Encoding.vtable_ptr s
  build_leaf (make_enum_member m) s = do
    t ← deref m.type
    b ← assume (as_basic (g t))
    in_enum s
    r ← build_fundamental m b.name (dwarf2encoding b.encoding) s
    trim_enum r
  build_leaf (make_composite m) s = fault failed_assertion
  build_leaf (finalize_composite m) s = fault failed_assertion

  unfoldable pub new_compound : MetaData → Outcome QualifiedCompound
  unfolding make_qual_type make_compound
  new_compound m = do
    t ← deref m.type
    c ← assume (as_composite (g t))
    q ← make_qual_type m
    done (record { type = make_compound c; qualification = q })

  -- Put a compound that is complete at a site: as a member, as a base class, or as the result, if it is in
  -- no other composite.
  unfoldable pub place_compound : MetaData → QualifiedCompound → Site → Outcome Site
  unfolding place add_base
  place_compound m c s =
      if m.is_member then place m (qualified_compound c.type c.qualification) s else elim s.around [
        | none ↦
            if m.is_base_class
            then fault failed_assertion
            else done (record s { result = qualified_compound c.type c.qualification })
        | some d ↦
            if m.is_base_class
            then done (record s { around = some (record d { type = add_base m c d.type }) })
            else fault failed_assertion
      ]

  -- The compound in which a forest was built
  abbrev pub around_of : Site → Outcome QualifiedCompound
  around_of s = elim s.around [ none ↦ fault failed_assertion | some c ↦ done c ]

  unfoldable mutual
    unfolding build_leaf new_compound place_compound

    pub build : Tree → Site → Outcome Site
    build (leaf e) s = build_leaf e s
    build (node m ts) s = do
      c ← new_compound m
      inner ← build_all ts (record { result = s.result; around = some c })
      built ← around_of inner
      place_compound m built (record s { result = inner.result })

    pub build_all : Forest → Site → Outcome Site
    build_all no_trees s = done s
    build_all (then_tree ts t) s = do r ← build_all ts s; build t r

  -- The type that a forest stands for
  unfoldable pub built_type : Forest → Outcome QualifiedType
  unfolding build_all
  built_type ts = do
    s ← build_all ts (record { result = new_parser.result; around = none })
    done s.result
