-- ===== src/DimetaIo/Emit.antt =====
-- The mapping traits of lib/type/DimetaIO.cpp while writing.
use llvm_dimeta.Base.{◌==◌, ℕ, Bool, true, false, not, Option, some, List, [], ◌∷◌, str_eq}
use llvm_dimeta.QualifiedType.{
  FundamentalType, Qualification, CompoundHead, CompoundType, compound_type, QualifiedType,
  qualified_compound, qualified_fundamental, Members, no_members, and_member, Bases, no_bases,
  and_base, SourceLocation, LocatedType,
}
use llvm_dimeta.CompileUnits.{CompileUnitTypes}
use llvm_dimeta.DimetaIo.{
  Yaml, text, number, boolean, sequence, mapping, Items, no_items, item, Entries, no_entries, entry,
  ◌>>=◌, put, is_empty_list, is_empty_items, items_of,
}
use llvm_dimeta.DimetaIo.Names.{name_of_case, encodings, tag_name, qualifier_name}

-- map_qualtype_fields
unfoldable pub qualtype_fields : Qualification → Entries
unfolding put items_of qualifier_name
qualtype_fields q =
    put (not (is_empty_list q.array_size)) "Array" (sequence (items_of number q.array_size)) (
      put (not (is_empty_list q.qual)) "Qualifiers"
        (sequence (items_of (λ k. text (qualifier_name k)) q.qual))
        (put (not (str_eq q.typedef_name "")) "Typedef" (text q.typedef_name) (
          put q.is_vector "Vector" (boolean q.is_vector) (
            put (not (q.vector_size == 0)) "VectorSize" (number q.vector_size) (
              put q.is_forward_decl "ForwardDecl" (boolean q.is_forward_decl)
                (put q.is_recurring "Recurring" (boolean q.is_recurring) no_entries))))))

unfoldable pub emit_fundamental_type : FundamentalType → Option Yaml
unfolding name_of_case
emit_fundamental_type f = do
  encoding ← name_of_case encodings f.encoding
  some (
      mapping (
        entry "Name" (text f.name)
          (entry "Extent" (number f.extent) (entry "Encoding" (text encoding) no_entries))))

unfoldable pub emit_fundamental : FundamentalType → Qualification → Option Yaml
unfolding emit_fundamental_type qualtype_fields
emit_fundamental f q = do
  type ← emit_fundamental_type f
  some (mapping (entry "Fundamental" type (qualtype_fields q)))

-- The fields of a CompoundType, its bases and members being written
unfoldable pub compound_fields : CompoundHead → Items → Items → Items → Entries
unfolding put items_of tag_name
compound_fields h bases members static_members = entry "Name" (text h.name) (
    put (not (str_eq h.identifier "")) "Identifier" (text h.identifier) (
      entry "Type" (text (tag_name h.type)) (
        entry "Extent" (number h.extent) (
          put (not (is_empty_list h.sizes)) "Sizes" (sequence (items_of number h.sizes)) (
            put (not (is_empty_list h.offsets)) "Offsets" (sequence (items_of number h.offsets)) (
              put (not (is_empty_items bases)) "Base" (sequence bases) (
                put (not (is_empty_items members)) "Members" (sequence members) (
                  put (not (is_empty_items static_members)) "Static_Members"
                    (sequence static_members) no_entries))))))))

-- A base class: its type, its offset, and whether it is empty
unfoldable pub base_fields : Yaml → ℕ → Bool → Entries
unfolding put
base_fields base offset is_empty = entry "BaseClass" base (
    put (not (offset == 0)) "Offset" (number offset)
      (put is_empty "EBO" (boolean is_empty) no_entries))

abbrev pub type_fields : Bool → Yaml → Entries
type_fields holds_builtin type =
    entry "Builtin" (boolean holds_builtin) (entry "Type" type no_entries)

abbrev pub with_qualtype : Qualification → Yaml → Yaml
with_qualtype q y = mapping (entry "Compound" y (qualtype_fields q))

unfoldable mutual
  unfolding compound_fields base_fields emit_fundamental qualtype_fields

  pub emit_compound_type : CompoundType → Option Yaml
  emit_compound_type (compound_type h bs ms ss) = do
    bases ← emit_bases bs
    members ← emit_members ms
    static_members ← emit_members ss
    some (mapping (compound_fields h bases members static_members))

  -- map_qualified_type
  pub emit_qualified : QualifiedType → Option Entries
  emit_qualified (qualified_compound c q) = do
    y ← emit_compound_type c
    some (type_fields false (with_qualtype q y))
  emit_qualified (qualified_fundamental f q) = do
    y ← emit_fundamental f q
    some (type_fields true y)

  pub emit_members : Members → Option Items
  emit_members no_members = some no_items
  emit_members (and_member name t ms) = do
    fields ← emit_qualified t
    rest ← emit_members ms
    some (item (mapping (entry "Name" (text name) fields)) rest)

  pub emit_bases : Bases → Option Items
  emit_bases no_bases = some no_items
  emit_bases (and_base c q offset is_empty bs) = do
    y ← emit_compound_type c
    rest ← emit_bases bs
    some (item (mapping (base_fields (with_qualtype q y) offset is_empty)) rest)

-- QualifiedCompound
unfoldable pub emit_compound : CompoundType → Qualification → Option Yaml
unfolding emit_compound_type
emit_compound c q = do y ← emit_compound_type c; some (with_qualtype q y)

abbrev pub emit_location : SourceLocation → Yaml
emit_location l = mapping (
    entry "File" (text l.file)
      (entry "Function" (text l.function) (entry "Line" (number l.line) no_entries)))

unfoldable pub emit_located : LocatedType → Option Yaml
unfolding emit_qualified
emit_located t = do
  fields ← emit_qualified t.type
  some (mapping (entry "SourceLoc" (emit_location t.location) fields))

unfoldable pub emit_types : List QualifiedType → Option Items
unfolding emit_qualified
emit_types [] = some no_items
emit_types (t ∷ ts) = do
  fields ← emit_qualified t
  rest ← emit_types ts
  some (item (mapping fields) rest)

unfoldable pub emit_unit : CompileUnitTypes → Option Yaml
unfolding emit_types put
emit_unit u = do
  types ← emit_types u.types
  some (
      mapping (
        entry "CUName" (text u.name)
          (put (not (is_empty_items types)) "Types" (sequence types) no_entries)))

-- A list of compile units
unfoldable pub emit_units : List CompileUnitTypes → Option Items
unfolding emit_unit
emit_units [] = some no_items
emit_units (u ∷ us) = do y ← emit_unit u; rest ← emit_units us; some (item y rest)
