-- ===== src/DimetaIo/RoundTrip.antt =====
-- What lib/type/DimetaIO.cpp wrote is read back.

use llvm_dimeta.Base.{
  ℕ, zero, suc, ◌+◌, ◌≤◌, String, ◌≡◌, refl, sym, subst, Bool, true, false, Option, some,
  some-injective, arith,
}
use llvm_dimeta.QualifiedType.{
  FundamentalType, Qualification, CompoundType, compound_type, QualifiedType, qualified_compound,
  qualified_fundamental, Members, no_members, and_member, Bases, no_bases, and_base,
}
use llvm_dimeta.DimetaIo.{
  Yaml, text, mapping, Items, no_items, item, Entries, entry, find_key, required,
}
use llvm_dimeta.DimetaIo.Emit.{
  qualtype_fields, emit_fundamental, compound_fields, base_fields, type_fields, with_qualtype,
  emit_compound_type, emit_qualified, emit_members, emit_bases,
}
use llvm_dimeta.DimetaIo.Read.{
  read_qualified, read_members, read_bases, read_compound_type, read_compound,
}
use llvm_dimeta.DimetaIo.Fields.{
  find_key-put, optional-number, optional-boolean, read_qualtype_fields_lem,
}
use llvm_dimeta.DimetaIo.Compounds.{>>=-eq-some, fundamental_lem, compound_type_lem}

-- The compounds in a type: enough fuel to read it
unfoldable mutual
  pub compounds : CompoundType → ℕ
  compounds (compound_type h bs ms ss) =
      suc (base_compounds bs + member_compounds ms + member_compounds ss)

  pub type_compounds : QualifiedType → ℕ
  type_compounds (qualified_compound c q) = compounds c
  type_compounds (qualified_fundamental f q) = 0

  pub member_compounds : Members → ℕ
  member_compounds no_members = 0
  member_compounds (and_member n t ms) = type_compounds t + member_compounds ms

  pub base_compounds : Bases → ℕ
  base_compounds no_bases = 0
  base_compounds (and_base c q o e bs) = compounds c + base_compounds bs

-- `es` has the keys of map_qualified_type as they are in `fields`.
abbrev pub HasType : Entries → Entries → Type 0
HasType es fields =
    (find_key "Builtin" es ≡ find_key "Builtin" fields)
    × (find_key "Type" es ≡ find_key "Type" fields)

fundamental-HasType :
    (read : Yaml → Option QualifiedType) (f : FundamentalType) (q : Qualification) {y : Yaml}
    (es : Entries)
    → emit_fundamental f q ≡ some y
    → HasType es (type_fields true y)
    → read_qualified read es ≡ some (qualified_fundamental f q)
unfolding read_qualified required find_key
fundamental-HasType read f q es e h = rw (h.0, h.1) (fundamental_lem f q e)

compound-HasType :
    (read : Yaml → Option QualifiedType) (t : QualifiedType) {y : Yaml} (es : Entries)
    → read y ≡ some t
    → HasType es (type_fields false y)
    → read_qualified read es ≡ some t
unfolding read_qualified required find_key
compound-HasType read t es e h = rw (h.0, h.1) e

with_qualtype_lem :
    (fuel : ℕ) (c : CompoundType) (q : Qualification) (y : Yaml)
    → read_compound_type (read_compound fuel) y ≡ some c
    → read_compound (suc fuel) (with_qualtype q y) ≡ some (qualified_compound c q)
unfolding read_compound required find_key
with_qualtype_lem fuel c q y h = rw h (
    rw
      (read_qualtype_fields_lem (entry "Compound" y (qualtype_fields q)) q (record {
        array_key = refl;
        qualifiers_key = refl;
        typedef_key = refl;
        vector_key = refl;
        vector_size_key = refl;
        forward_decl_key = refl;
        recurring_key = refl;
      }))
      refl)

member_lem :
    (read : Yaml → Option QualifiedType) (name : String) (t : QualifiedType) (ms : Members)
    (fields : Entries) (is : Items)
    → read_qualified read (entry "Name" (text name) fields) ≡ some t
    → read_members read is ≡ some ms
    → read_members read (item (mapping (entry "Name" (text name) fields)) is)
      ≡ some (and_member name t ms)
unfolding read_members required find_key
member_lem read name t ms fields is h k = rw h (rw k refl)

base_lem :
    (read : Yaml → Option QualifiedType) (c : CompoundType) (q : Qualification) (offset : ℕ)
    (is_empty : Bool) (bs : Bases) (y : Yaml) (is : Items)
    → read y ≡ some (qualified_compound c q)
    → read_bases read is ≡ some bs
    → read_bases read (item (mapping (base_fields y offset is_empty)) is)
      ≡ some (and_base c q offset is_empty bs)
unfolding read_bases required find_key base_fields
base_lem read c q offset is_empty bs y is h k =
    let fs = base_fields y offset is_empty in
    rw h (
      rw (optional-number "Offset" offset fs (simp find_key-put))
        (rw (optional-boolean "EBO" is_empty fs (simp find_key-put)) (rw k refl)))

name-HasType : (name : String) (fields : Entries) → HasType (entry "Name" (text name) fields) fields
unfolding find_key
name-HasType name fields = (refl, refl)

no_members_read : (fuel : ℕ) → read_members (read_compound fuel) no_items ≡ some no_members
unfolding read_members
no_members_read fuel = refl

no_bases_read : (fuel : ℕ) → read_bases (read_compound fuel) no_items ≡ some no_bases
unfolding read_bases
no_bases_read fuel = refl

mutual
  unfolding compounds emit_compound_type

  compound_read :
      (c : CompoundType) (q : Qualification) (fuel : ℕ) (y : Yaml)
      → compounds c ≤ fuel
      → emit_compound_type c ≡ some y
      → read_compound fuel (with_qualtype q y) ≡ some (qualified_compound c q)
  compound_read (compound_type h bs ms ss) q zero y l e = absurd (omega arith)
  compound_read (compound_type h bs ms ss) q (suc fuel) y l e =
      let (b, eb, k1) = >>=-eq-some (emit_bases bs) _ e in
      let (m, em, k2) = >>=-eq-some (emit_members ms) _ k1 in
      let (s, es, k3) = >>=-eq-some (emit_members ss) _ k2 in
      let fields = compound_fields h b m s in
      let written : mapping fields ≡ y = some-injective (mapping fields) y k3 in
      subst
        (λ (z : Yaml).
          read_compound (suc fuel) (with_qualtype q z)
          ≡ some (qualified_compound (compound_type h bs ms ss) q))
        written
        (with_qualtype_lem fuel (compound_type h bs ms ss) q (mapping fields) (
          compound_type_lem (read_compound fuel) h bs ms ss b m s
            (bases_read bs fuel b (omega arith) eb) (members_read ms fuel m (omega arith) em)
            (members_read ss fuel s (omega arith) es)))

  pub type_read :
      (t : QualifiedType) (fuel : ℕ) (fields es : Entries)
      → type_compounds t ≤ fuel
      → emit_qualified t ≡ some fields
      → HasType es fields
      → read_qualified (read_compound fuel) es ≡ some t
  type_read (qualified_compound c q) fuel fields es l e h =
      let (y, ey, k) = >>=-eq-some (emit_compound_type c) _ e in
      let same = some-injective (type_fields false (with_qualtype q y)) fields k in
      compound-HasType (read_compound fuel) (qualified_compound c q) es
        (compound_read c q fuel y l ey) (subst (HasType es) (sym same) h)
  type_read (qualified_fundamental f q) fuel fields es l e h =
      let (y, ey, k) = >>=-eq-some (emit_fundamental f q) _ e in
      let same = some-injective (type_fields true y) fields k in
      fundamental-HasType (read_compound fuel) f q es ey (subst (HasType es) (sym same) h)

  members_read :
      (ms : Members) (fuel : ℕ) (is : Items)
      → member_compounds ms ≤ fuel
      → emit_members ms ≡ some is
      → read_members (read_compound fuel) is ≡ some ms
  members_read no_members fuel is l e =
      subst (λ (z : Items). read_members (read_compound fuel) z ≡ some no_members)
        (some-injective no_items is e) (no_members_read fuel)
  members_read (and_member name t ms) fuel is l e =
      let (fields, ef, k1) = >>=-eq-some (emit_qualified t) _ e in
      let (rest, er, k2) = >>=-eq-some (emit_members ms) _ k1 in
      subst (λ (z : Items). read_members (read_compound fuel) z ≡ some (and_member name t ms))
        (some-injective (item (mapping (entry "Name" (text name) fields)) rest) is k2)
        (member_lem (read_compound fuel) name t ms fields rest
          (type_read t fuel fields (entry "Name" (text name) fields) (omega arith) ef
            (name-HasType name fields))
          (members_read ms fuel rest (omega arith) er))

  bases_read :
      (bs : Bases) (fuel : ℕ) (is : Items)
      → base_compounds bs ≤ fuel
      → emit_bases bs ≡ some is
      → read_bases (read_compound fuel) is ≡ some bs
  bases_read no_bases fuel is l e =
      subst (λ (z : Items). read_bases (read_compound fuel) z ≡ some no_bases)
        (some-injective no_items is e) (no_bases_read fuel)
  bases_read (and_base c q offset is_empty bs) fuel is l e =
      let (y, ey, k1) = >>=-eq-some (emit_compound_type c) _ e in
      let (rest, er, k2) = >>=-eq-some (emit_bases bs) _ k1 in
      subst
        (λ (z : Items). read_bases (read_compound fuel) z ≡ some (and_base c q offset is_empty bs))
        (some-injective (item (mapping (base_fields (with_qualtype q y) offset is_empty)) rest) is
          k2)
        (base_lem (read_compound fuel) c q offset is_empty bs (with_qualtype q y) rest
          (compound_read c q fuel y (omega arith) ey) (bases_read bs fuel rest (omega arith) er))
