-- ===== src/CompileUnits/ReadBack.antt =====
-- compile_unit_types of lib/type/Dimeta.cpp and lib/type/DimetaIO.cpp together: its result can be written
-- as a document, and read back.

use llvm_dimeta.Base.{
  if_intro, All, done, done-injective, >>=-eq-done, Post, >>=-Post, Post-done, ℕ, ◌≡◌, refl, subst,
  Option, none, some, some-injective, List, [], ◌∷◌,
}
use llvm_dimeta.Metadata.{NodeId, Metadata}
use llvm_dimeta.QualifiedType.{QualifiedType}
use llvm_dimeta.CompileUnits.{
  CompileUnit, CompileUnitTypes, is_di_type, unit_types, units, compile_unit_types,
}
use llvm_dimeta.DimetaParse.Handler.{make_dimetadata}
use llvm_dimeta.DimetaParse.Writable.{ResultNamed, make_dimetadata-ResultNamed}
use llvm_dimeta.DimetaIo.{Items}
use llvm_dimeta.DimetaIo.Emit.{emit_qualified, emit_types, emit_unit, emit_units}
use llvm_dimeta.DimetaIo.Read.{read_units}
use llvm_dimeta.DimetaIo.Written.{Succeeds, >>=-Succeeds, TypeNamed, type_written}
use llvm_dimeta.DimetaIo.Documents.{IsEnough, read_units-emit_units}

abbrev TypesNamed : List QualifiedType → Type 0
TypesNamed ts = All TypeNamed ts

abbrev UnitNamed : CompileUnitTypes → Type 0
UnitNamed u = TypesNamed u.types

module _ (g : Metadata) (walk : ℕ) where
  add_result :
      (r : Option QualifiedType) (ts : List QualifiedType)
      → ResultNamed g r
      → TypesNamed ts
      → TypesNamed (elim r [ none ↦ ts | some t ↦ t ∷ ts ])
  add_result none ts h k = k
  add_result (some t) ts h k = (h, k)

  unit_types-Named : (ns : List NodeId) → Post TypesNamed (unit_types g walk ns)
  unfolding unit_types
  unit_types-Named [] = tt
  unit_types-Named (n ∷ ns) =
      if_intro (Post TypesNamed) (is_di_type (g n))
        (>>=-Post (ResultNamed g) TypesNamed (make_dimetadata g walk n) _
          (make_dimetadata-ResultNamed g walk n)
          λ r h.
            >>=-Post TypesNamed TypesNamed (unit_types g walk ns) _ (unit_types-Named ns)
              λ ts k. add_result r ts h k)
        (unit_types-Named ns)

  units-Named : (us : List CompileUnit) → Post (All UnitNamed) (units g walk us)
  unfolding units
  units-Named [] = tt
  units-Named (u ∷ us) =
      >>=-Post TypesNamed (All UnitNamed) (unit_types g walk u.retained_types) _
        (unit_types-Named u.retained_types)
        λ ts h.
          >>=-Post (All UnitNamed) (All UnitNamed) (units g walk us) _ (units-Named us)
            λ rest k. (h, k)

types_written : (ts : List QualifiedType) → TypesNamed ts → Succeeds (emit_types ts)
unfolding emit_types
types_written [] n = (_, refl)
types_written (t ∷ ts) n =
    >>=-Succeeds (emit_qualified t) _ (type_written t n.0)
      λ f. >>=-Succeeds (emit_types ts) _ (types_written ts n.1) λ r. (_, refl)

units_written : (us : List CompileUnitTypes) → All UnitNamed us → Succeeds (emit_units us)
unfolding emit_units emit_unit
units_written [] n = (_, refl)
units_written (u ∷ us) n =
    >>=-Succeeds (emit_unit u) _
      (>>=-Succeeds (emit_types u.types) _ (types_written u.types n.0) λ is. (_, refl))
      λ y. >>=-Succeeds (emit_units us) _ (units_written us n.1) λ r. (_, refl)

not_empty :
    (list us : List CompileUnitTypes)
    → elim list [ [] ↦ none | u ∷ rest ↦ some (u ∷ rest) ] ≡ some us
    → list ≡ us
not_empty [] us e = cc
not_empty (u ∷ rest) us e = some-injective (u ∷ rest) us e

-- The compile units that compile_unit_types returns are written as a document, and with fuel for the
-- compounds in each type this is read back as the same compile units.
pub compile_unit_types-read_units :
    (g : Metadata) (walk : ℕ) (module_units : List CompileUnit) (us : List CompileUnitTypes)
    (fuel : ℕ)
    → compile_unit_types g walk module_units ≡ done (some us)
    → All (IsEnough fuel) us
    → (is : Items) × (emit_units us ≡ some is) × (read_units fuel is ≡ some us)
unfolding compile_unit_types
compile_unit_types-read_units g walk module_units us fuel h l =
    let (list, e, k) = >>=-eq-done (units g walk module_units) _ h in
    let same = not_empty list us (done-injective _ (some us) k) in
    let named =
      subst (All UnitNamed) same (
        Post-done (All UnitNamed) (units g walk module_units) (units-Named g walk module_units)
          e) in
    let (is, written) = units_written us named in
    (is, written, read_units-emit_units us fuel is l written)
