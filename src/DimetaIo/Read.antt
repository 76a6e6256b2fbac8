-- ===== src/DimetaIo/Read.antt =====
-- The mapping traits of lib/type/DimetaIO.cpp while reading.
use llvm_dimeta.Base.{if◌then◌else◌, ℕ, zero, suc, Bool, false, Option, none, some, List, [], ◌∷◌}
use llvm_dimeta.QualifiedType.{
  FundamentalType, Qualification, CompoundType, compound_type, QualifiedType, qualified_compound,
  qualified_fundamental, Members, no_members, and_member, Bases, no_bases, and_base, SourceLocation,
  LocatedType,
}
use llvm_dimeta.CompileUnits.{CompileUnitTypes}
use llvm_dimeta.DimetaIo.{
  Yaml, text, sequence, Items, no_items, item, Entries, ◌>>=◌, required, optional, read_text,
  read_number, read_boolean, read_mapping, read_list,
}
use llvm_dimeta.DimetaIo.Names.{case_of_name, encodings, read_tag, read_qualifier}

unfoldable pub read_qualtype_fields : Entries → Option Qualification
unfolding optional read_list read_qualifier
read_qualtype_fields es = do
  array_size ← optional "Array" [] (read_list read_number) es
  qual ← optional "Qualifiers" [] (read_list read_qualifier) es
  typedef_name ← optional "Typedef" "" read_text es
  is_vector ← optional "Vector" false read_boolean es
  vector_size ← optional "VectorSize" 0 read_number es
  is_forward_decl ← optional "ForwardDecl" false read_boolean es
  is_recurring ← optional "Recurring" false read_boolean es
  some (record {
    array_size = array_size;
    qual = qual;
    typedef_name = typedef_name;
    vector_size = vector_size;
    is_vector = is_vector;
    is_forward_decl = is_forward_decl;
    is_recurring = is_recurring;
  })

unfoldable pub read_encoding : Yaml → Option ℕ
unfolding case_of_name
read_encoding (text s) = case_of_name encodings s
read_encoding _ = none

unfoldable pub read_fundamental_type : Yaml → Option FundamentalType
unfolding required optional read_encoding
read_fundamental_type y = do
  es ← read_mapping y
  name ← required "Name" read_text es
  extent ← optional "Extent" 0 read_number es
  encoding ← required "Encoding" read_encoding es
  some (record { name = name; extent = extent; encoding = encoding })

unfoldable pub read_fundamental : Yaml → Option QualifiedType
unfolding required read_fundamental_type read_qualtype_fields
read_fundamental y = do
  es ← read_mapping y
  f ← required "Fundamental" read_fundamental_type es
  q ← read_qualtype_fields es
  some (qualified_fundamental f q)

-- `read` reads a QualifiedCompound.
module _ (read : Yaml → Option QualifiedType) where
  -- map_qualified_type
  unfoldable pub read_qualified : Entries → Option QualifiedType
  unfolding required read_fundamental
  read_qualified es = do
    holds_builtin ← required "Builtin" read_boolean es
    if holds_builtin then required "Type" read_fundamental es else required "Type" read es

  unfoldable pub read_members : Items → Option Members
  unfolding required read_qualified
  read_members no_items = some no_members
  read_members (item y is) = do
    es ← read_mapping y
    name ← required "Name" read_text es
    t ← read_qualified es
    rest ← read_members is
    some (and_member name t rest)

  abbrev pub add_base : QualifiedType → ℕ → Bool → Bases → Option Bases
  add_base (qualified_compound c q) offset is_empty bs = some (and_base c q offset is_empty bs)
  add_base (qualified_fundamental f q) offset is_empty bs = none

  unfoldable pub read_bases : Items → Option Bases
  unfolding required optional
  read_bases no_items = some no_bases
  read_bases (item y is) = do
    es ← read_mapping y
    base ← required "BaseClass" read es
    offset ← optional "Offset" 0 read_number es
    is_empty ← optional "EBO" false read_boolean es
    rest ← read_bases is
    add_base base offset is_empty rest

  abbrev pub read_sequence {ℓ} : {A : Type ℓ} → (Items → Option A) → Yaml → Option A
  read_sequence read_is (sequence is) = read_is is
  read_sequence read_is _ = none

  unfoldable pub read_compound_type : Yaml → Option CompoundType
  unfolding required optional read_list read_tag read_members read_bases
  read_compound_type y = do
    es ← read_mapping y
    name ← required "Name" read_text es
    identifier ← optional "Identifier" "" read_text es
    type ← required "Type" read_tag es
    extent ← required "Extent" read_number es
    sizes ← optional "Sizes" [] (read_list read_number) es
    offsets ← optional "Offsets" [] (read_list read_number) es
    bases ← optional "Base" no_bases (read_sequence read_bases) es
    members ← optional "Members" no_members (read_sequence read_members) es
    static_members ← optional "Static_Members" no_members (read_sequence read_members) es
    some (
        compound_type
          (record {
            name = name;
            identifier = identifier;
            type = type;
            extent = extent;
            offsets = offsets;
            sizes = sizes;
          })
          bases members static_members)

-- The fuel bounds the depth of the document.
unfoldable pub read_compound : ℕ → Yaml → Option QualifiedType
unfolding required read_compound_type read_qualtype_fields
read_compound zero y = none
read_compound (suc fuel) y = do
  es ← read_mapping y
  c ← required "Compound" (read_compound_type (read_compound fuel)) es
  q ← read_qualtype_fields es
  some (qualified_compound c q)

abbrev pub read_location : Yaml → Option SourceLocation
read_location y = do
  es ← read_mapping y
  file ← required "File" read_text es
  function ← optional "Function" "" read_text es
  line ← required "Line" read_number es
  some (record { file = file; function = function; line = line })

unfoldable pub read_located : ℕ → Yaml → Option LocatedType
unfolding required optional read_qualified read_compound
read_located fuel y = do
  es ← read_mapping y
  location ← required "SourceLoc" read_location es
  t ← read_qualified (read_compound fuel) es
  some (record { type = t; location = location })

unfoldable pub read_types : ℕ → Items → Option (List QualifiedType)
unfolding read_qualified read_compound
read_types fuel no_items = some []
read_types fuel (item y is) = do
  es ← read_mapping y
  t ← read_qualified (read_compound fuel) es
  rest ← read_types fuel is
  some (t ∷ rest)

unfoldable pub read_unit : ℕ → Yaml → Option CompileUnitTypes
unfolding required optional read_types
read_unit fuel y = do
  es ← read_mapping y
  name ← required "CUName" read_text es
  types ← optional "Types" [] (read_sequence (read_compound fuel) (read_types fuel)) es
  some (record { name = name; types = types })

unfoldable pub read_units : ℕ → Items → Option (List CompileUnitTypes)
unfolding read_unit
read_units fuel no_items = some []
read_units fuel (item y is) = do u ← read_unit fuel y; rest ← read_units fuel is; some (u ∷ rest)
