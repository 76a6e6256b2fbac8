-- ===== src/SourceLoc/ReadBack.antt =====
-- located_type_for of lib/type/SourceLocType.cpp with the parser of lib/type/DimetaParse.cpp and the
-- documents of lib/type/DimetaIO.cpp.

use llvm_dimeta.Base.{
  Option-cases, Outcome, done, ◌>>=◌, deref, Post, >>=-Post, >>=-Post_second, Post-done, ℕ, ◌≤◌,
  ◌≡◌, refl, inl, inr, Option, none, some, List,
}
use llvm_dimeta.Metadata.{Metadata, Ptr}
use llvm_dimeta.Dataflow.Fortran.{IndexDim}
use llvm_dimeta.Calls.{DimetaData}
use llvm_dimeta.QualifiedType.{
  QualifiedType, qualified_compound, qualified_fundamental, SourceLocation, LocatedType,
}
use llvm_dimeta.SourceLoc.{
  location_for, reset_pointer_qualifier, reset_shape_qualifier, reset_qualifiers, locate,
  parsed_type, located_type_for,
}
use llvm_dimeta.DimetaParse.Handler.{make_dimetadata}
use llvm_dimeta.DimetaParse.Writable.{ResultNamed, make_dimetadata-ResultNamed}
use llvm_dimeta.DimetaIo.{Yaml}
use llvm_dimeta.DimetaIo.Emit.{emit_qualified, emit_located}
use llvm_dimeta.DimetaIo.Read.{read_located}
use llvm_dimeta.DimetaIo.Written.{Succeeds, >>=-Succeeds, TypeNamed, type_written}
use llvm_dimeta.DimetaIo.RoundTrip.{type_compounds}
use llvm_dimeta.DimetaIo.Documents.{read_located-emit_located}

-- The qualifiers do not matter for whether a type can be written.
reset_pointer-TypeNamed :
    (level : ℕ) (t : QualifiedType) → TypeNamed t → TypeNamed (reset_pointer_qualifier level t)
unfolding reset_pointer_qualifier TypeNamed
reset_pointer-TypeNamed level (qualified_compound c q) n = n
reset_pointer-TypeNamed level (qualified_fundamental f q) n = n

reset_shape-TypeNamed :
    (shapes : List IndexDim) (t : QualifiedType)
    → TypeNamed t
    → TypeNamed (reset_shape_qualifier shapes t)
unfolding reset_shape_qualifier TypeNamed
reset_shape-TypeNamed shapes (qualified_compound c q) n = n
reset_shape-TypeNamed shapes (qualified_fundamental f q) n = n

reset_qualifiers-TypeNamed :
    (d : DimetaData) (t : QualifiedType) → TypeNamed t → TypeNamed (reset_qualifiers d t)
unfolding reset_qualifiers
reset_qualifiers-TypeNamed d t n = elim (Option-cases d.shape_descriptor) [
  | inl e ↦ rw (e, reset_qualifiers) (reset_pointer-TypeNamed d.pointer_level t n)
  | inr (shapes, e) ↦
      rw (e, reset_qualifiers)
        (reset_shape-TypeNamed shapes (reset_pointer_qualifier d.pointer_level t)
          (reset_pointer-TypeNamed d.pointer_level t n))
]

abbrev LocatedNamed : Option LocatedType → Type 0
LocatedNamed none = Unit
LocatedNamed (some t) = TypeNamed t.type

locate-LocatedNamed :
    (g : Metadata) (loc : SourceLocation) (d : DimetaData) (made : Option QualifiedType)
    → ResultNamed g made
    → LocatedNamed (locate loc d made)
locate-LocatedNamed g loc d none n = tt
locate-LocatedNamed g loc d (some t) n = reset_qualifiers-TypeNamed d t n

located_written : (t : LocatedType) → TypeNamed t.type → Succeeds (emit_located t)
unfolding emit_located
located_written t n = >>=-Succeeds (emit_qualified t.type) _ (type_written t.type n) λ f. (_, refl)

module _ (g : Metadata) (walk : ℕ) where
  -- make_dimetadata of lib/type/DimetaParse.cpp, of a pointer that may be null
  abbrev pub parse : Ptr → Outcome (Option QualifiedType)
  parse t = deref t >>= make_dimetadata g walk

  parse-ResultNamed : (t : Ptr) → Post (ResultNamed g) (parse t)
  parse-ResultNamed t =
      >>=-Post_second (ResultNamed g) (deref t) (make_dimetadata g walk)
        (make_dimetadata-ResultNamed g walk)

  entry_located :
      (loc : SourceLocation) (d : DimetaData) (entry : Option Ptr)
      → Post LocatedNamed (elim entry [
        | none ↦ done none
        | some t ↦ do p ← parsed_type g parse t; made ← parse p; done (locate loc d made)
      ])
  entry_located loc d none = tt
  entry_located loc d (some t) = >>=-Post_second LocatedNamed (parsed_type g parse t) _ λ p.
      >>=-Post (ResultNamed g) LocatedNamed (parse p) _ (parse-ResultNamed p)
        (λ made n. locate-LocatedNamed g loc d made n)

  located_type_for-LocatedNamed : (d : DimetaData) → Post LocatedNamed (located_type_for g parse d)
  unfolding located_type_for
  located_type_for-LocatedNamed d = elim (Option-cases (location_for g d)) [
    | inl e ↦ rw (e, located_type_for) tt
    | inr (loc, e) ↦ rw (e, located_type_for) (entry_located loc d d.entry_type)
  ]

  -- A located type that located_type_for returns, the type being parsed by make_dimetadata, is written as
  -- a document, and with fuel for the compounds in it this is read back as the same located type.
  pub located_type_for-read_located :
      (d : DimetaData) (t : LocatedType) (fuel : ℕ)
      → located_type_for g parse d ≡ done (some t)
      → type_compounds t.type ≤ fuel
      → (y : Yaml) × (emit_located t ≡ some y) × (read_located fuel y ≡ some t)
  located_type_for-read_located d t fuel h l =
      let (y, e) =
        located_written t (
          Post-done LocatedNamed (located_type_for g parse d) (located_type_for-LocatedNamed d)
            h) in
      (y, e, read_located-emit_located t fuel y l e)
