-- ===== src/DimetaIo/Documents.antt =====
-- emit and input of lib/type/DimetaIO.cpp: the documents of a located type and of compile units.
use llvm_dimeta.Base.{All, ℕ, ◌≤◌, ◌≡◌, refl, subst, not, some, some-injective, List, [], ◌∷◌}
use llvm_dimeta.QualifiedType.{QualifiedType, LocatedType}
use llvm_dimeta.CompileUnits.{CompileUnitTypes}
use llvm_dimeta.DimetaIo.{
  Yaml, text, sequence, mapping, Items, no_items, item, no_entries, entry, put, find_key, required,
  is_empty_items,
}
use llvm_dimeta.DimetaIo.Emit.{
  emit_qualified, emit_location, emit_located, emit_types, emit_unit, emit_units,
}
use llvm_dimeta.DimetaIo.Read.{read_compound, read_located, read_types, read_unit, read_units}
use llvm_dimeta.DimetaIo.Fields.{find_key-put}
use llvm_dimeta.DimetaIo.Compounds.{>>=-eq-some, optional-sequence}
use llvm_dimeta.DimetaIo.RoundTrip.{type_compounds, type_read}

-- A located type that is written is read back, with fuel for the compounds in it.
pub read_located-emit_located :
    (t : LocatedType) (fuel : ℕ) (y : Yaml)
    → type_compounds t.type ≤ fuel
    → emit_located t ≡ some y
    → read_located fuel y ≡ some t
unfolding emit_located read_located required find_key
read_located-emit_located t fuel y l e =
    let (fields, ef, k) = >>=-eq-some (emit_qualified t.type) _ e in
    let es = entry "SourceLoc" (emit_location t.location) fields in
    subst (λ (z : Yaml). read_located fuel z ≡ some t) (some-injective (mapping es) y k)
      (rw (type_read t.type fuel fields es l ef (refl, refl)) refl)

types_read :
    (ts : List QualifiedType) (fuel : ℕ) (is : Items)
    → All (λ t. type_compounds t ≤ fuel) ts
    → emit_types ts ≡ some is
    → read_types fuel is ≡ some ts
unfolding emit_types read_types
types_read [] fuel is l e =
    subst (λ (z : Items). read_types fuel z ≡ some []) (some-injective no_items is e) refl
types_read (t ∷ ts) fuel is (l, ls) e =
    let (fields, ef, k1) = >>=-eq-some (emit_qualified t) _ e in
    let (rest, er, k2) = >>=-eq-some (emit_types ts) _ k1 in
    subst (λ (z : Items). read_types fuel z ≡ some (t ∷ ts))
      (some-injective (item (mapping fields) rest) is k2)
      (rw (type_read t fuel fields fields l ef (refl, refl))
        (rw (types_read ts fuel rest ls er) refl))

no_types_read : (fuel : ℕ) → read_types fuel no_items ≡ some []
unfolding read_types
no_types_read fuel = refl

-- The fuel is enough for each type of a compile unit.
abbrev pub IsEnough : ℕ → CompileUnitTypes → Type 0
IsEnough fuel u = All (λ t. type_compounds t ≤ fuel) u.types

unit_read :
    (u : CompileUnitTypes) (fuel : ℕ) (y : Yaml)
    → IsEnough fuel u
    → emit_unit u ≡ some y
    → read_unit fuel y ≡ some u
unfolding emit_unit read_unit required find_key
unit_read u fuel y l e =
    let (is, ei, k) = >>=-eq-some (emit_types u.types) _ e in
    let es =
      entry "CUName" (text u.name)
        (put (not (is_empty_items is)) "Types" (sequence is) no_entries) in
    subst (λ (z : Yaml). read_unit fuel z ≡ some u) (some-injective (mapping es) y k)
      (rw
        (optional-sequence (read_compound fuel) "Types" [] u.types (read_types fuel) is es
          (no_types_read fuel) (types_read u.types fuel is l ei) (simp find_key-put))
        refl)

-- Compile units that are written are read back, with fuel for the compounds in each type.
pub read_units-emit_units :
    (us : List CompileUnitTypes) (fuel : ℕ) (is : Items)
    → All (IsEnough fuel) us
    → emit_units us ≡ some is
    → read_units fuel is ≡ some us
unfolding emit_units read_units
read_units-emit_units [] fuel is l e =
    subst (λ (z : Items). read_units fuel z ≡ some []) (some-injective no_items is e) refl
read_units-emit_units (u ∷ us) fuel is (l, ls) e =
    let (y, ey, k1) = >>=-eq-some (emit_unit u) _ e in
    let (rest, er, k2) = >>=-eq-some (emit_units us) _ k1 in
    subst (λ (z : Items). read_units fuel z ≡ some (u ∷ us)) (some-injective (item y rest) is k2)
      (rw (unit_read u fuel y l ey) (rw (read_units-emit_units us fuel rest ls er) refl))
