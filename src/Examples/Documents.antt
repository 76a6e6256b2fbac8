-- ===== src/Examples/Documents.antt =====
-- lib/type/DimetaIO.cpp at `struct Box { int a; }`.

use llvm_dimeta.DimetaIo.Documents.{read_located-emit_located}
use llvm_dimeta.DimetaIo.RoundTrip.{type_compounds}
use llvm_dimeta.DimetaIo.Read.{read_located, read_units}
use llvm_dimeta.DimetaIo.Emit.{type_fields, emit_qualified, emit_location, emit_located, emit_units}
use llvm_dimeta.DimetaIo.Names.{tag_name}
use llvm_dimeta.DimetaIo.{
  Yaml, text, number, sequence, mapping, Items, no_items, item, Entries, no_entries, entry, put,
  items_of,
}
use llvm_dimeta.DimetaIo.Written.{Succeeds, TypeNamed, emit_qualified-TypeNamed}
use llvm_dimeta.CompileUnits.ReadBack.{compile_unit_types-read_units}
use llvm_dimeta.Examples.{graph, stack_data}
use llvm_dimeta.SourceLoc.{located_type_for}
use llvm_dimeta.SourceLoc.ReadBack.{parse, located_type_for-read_located}
use llvm_dimeta.DiUtil.{is_member}
use llvm_dimeta.DimetaParse.Handler.{make_dimetadata}
use llvm_dimeta.Base.{
  Outcome, done, ◌≡◌, refl, ◌↔◌, true, false, Option, some, List, [], ◌∷◌, arith,
}
use llvm_dimeta.QualifiedType.{
  pointer, struct_tag, Qualification, compound_type, QualifiedType, qualified_compound,
  qualified_fundamental, no_members, and_member, no_bases, LocatedType,
}
use llvm_dimeta.CompileUnits.{CompileUnit, CompileUnitTypes, compile_unit_types}

abbrev plain : Qualification
plain = record {
  array_size = [];
  qual = [];
  typedef_name = "";
  vector_size = 0;
  is_vector = false;
  is_forward_decl = false;
  is_recurring = false;
}

abbrev int_type : QualifiedType
int_type = qualified_fundamental (record { name = "int"; extent = 4; encoding = 12 }) plain

abbrev box_type : QualifiedType
box_type =
    qualified_compound
      (compound_type
        (record {
          name = "Box";
          identifier = "";
          type = struct_tag;
          extent = 4;
          offsets = 0 ∷ [];
          sizes = 4 ∷ [];
        })
        no_bases (and_member "a" int_type no_members) no_members)
      (record plain { qual = pointer ∷ [] })

abbrev box : LocatedType
box = record { type = box_type; location = record { file = "box.c"; function = "main"; line = 3 } }

abbrev box_unit : CompileUnitTypes
box_unit = record { name = "box.c"; types = box_type ∷ [] }

abbrev int_document : Yaml
int_document = mapping (
    entry "Fundamental"
      (mapping (
        entry "Name" (text "int")
          (entry "Extent" (number 4) (entry "Encoding" (text "signed_int") no_entries))))
      no_entries)

abbrev box_document : Entries
box_document = type_fields false (
    mapping (
      entry "Compound"
        (mapping (
          entry "Name" (text "Box") (
            entry "Type" (text "struct") (
              entry "Extent" (number 4) (
                entry "Sizes" (sequence (item (number 4) no_items)) (
                  entry "Offsets" (sequence (item (number 0) no_items)) (
                    entry "Members"
                      (sequence (
                        item (mapping (entry "Name" (text "a") (type_fields true int_document)))
                          no_items))
                      no_entries)))))))
        (entry "Qualifiers" (sequence (item (text "ptr") no_items)) no_entries)))

abbrev located_document : Yaml
located_document = mapping (entry "SourceLoc" (emit_location box.location) box_document)

abbrev unit_document : Items
unit_document =
    item
      (mapping (
        entry "CUName" (text "box.c")
          (entry "Types" (sequence (item (mapping box_document) no_items)) no_entries)))
      no_items

read_located-emit_located_example : read_located 1 located_document ≡ some box
unfolding emit_located emit_qualified type_compounds put items_of tag_name
read_located-emit_located_example =
    read_located-emit_located box 1 located_document (omega arith) refl

emit_qualified-TypeNamed_example : Succeeds (emit_qualified box_type) ↔ TypeNamed box_type
emit_qualified-TypeNamed_example = emit_qualified-TypeNamed box_type

-- A compile unit that retains `struct Pair`, and a variable, which is no type
abbrev pair_unit : CompileUnit
pair_unit = record { filename = "pair.c"; retained_types = 1 ∷ 6 ∷ [] }

abbrev units_of : Outcome (Option (List CompileUnitTypes)) → List CompileUnitTypes
units_of (done (some us)) = us
units_of _ = []

abbrev pair_units : List CompileUnitTypes
pair_units = units_of (compile_unit_types graph 9 (pair_unit ∷ []))

compile_unit_types-read_units_example :
    (is : Items) × (emit_units pair_units ≡ some is) × (read_units 3 is ≡ some pair_units)
unfolding compile_unit_types type_compounds
compile_unit_types-read_units_example =
    compile_unit_types-read_units graph 9 (pair_unit ∷ []) pair_units 3 refl
      (((omega arith, tt)), tt)

-- The located type of the variable `p`
abbrev parsed_p : LocatedType
parsed_p = located_of (located_type_for graph (parse graph 9) stack_data)
  where
    located_of : Outcome (Option LocatedType) → LocatedType
    located_of (done (some t)) = t
    located_of _ = box

located_type_for-read_located_example :
    (y : Yaml) × (emit_located parsed_p ≡ some y) × (read_located 3 y ≡ some parsed_p)
unfolding located_type_for type_compounds is_member make_dimetadata
located_type_for-read_located_example =
    located_type_for-read_located graph 9 stack_data parsed_p 3 refl (omega arith)
