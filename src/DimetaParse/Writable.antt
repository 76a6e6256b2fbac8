-- ===== src/DimetaParse/Writable.antt =====
-- The types that lib/type/DimetaParse.cpp builds are types that lib/type/DimetaIO.cpp can write: their
-- encodings have names.

use llvm_dimeta.Parser.Callbacks.{event_hooks}
use llvm_dimeta.Visitor.{start, traverse_node}
use llvm_dimeta.Base.{
  if◌then◌else◌, has_value, if_intro, failed_assertion, done, fault, deref, assert, Post, >>=-Post,
  >>=-Post_second, ℕ, String, refl, Option, none, some, List, [], ◌∷◌, str_eq,
}
use llvm_dimeta.Metadata.{NodeId, BasicType, CompositeType, Metadata, as_derived, as_composite}
use llvm_dimeta.QualifiedType.{QualifiedType, qualified_fundamental}
use llvm_dimeta.Parser.{
  MetaData, Event, make_fundamental, make_function_ptr, make_void_ptr, make_string, make_vtable,
  make_enum_member, make_composite, finalize_composite, new_visitor,
}
use llvm_dimeta.DimetaParse.Qualify.{
  dwarf2encoding, make_qual_type, make_compound, make_fundamental_type, encoding_of,
}
use llvm_dimeta.DimetaParse.Stack.{
  QualifiedCompound, DiTypeParser, tag_of, is_enum_tag, keep_first_member,
}
use llvm_dimeta.DimetaParse.Handler.{
  as_basic, as_string, assume, emplace_fundamental, emplace_enum, handle, handle_all, is_parsed,
  make_dimetadata,
}
use llvm_dimeta.DimetaIo.Names.{name_of_case}
use llvm_dimeta.DimetaIo.Written.{IsNamed, CompoundNamed, TypeNamed}
use llvm_dimeta.DimetaParse.Encoding
use llvm_dimeta.DimetaParse.Named.{
  StackNamed, ParserNamed, dwarf2encoding-IsNamed, encoding_of-IsNamed, keep_first_member-Named,
  emplace_member-Named, finalize-Named,
}

module _ (g : Metadata) where
  emplace_fundamental-Named :
      (m : MetaData) (name : String) (encoding : ℕ) (p : DiTypeParser)
      → IsNamed encoding
      → ParserNamed p
      → Post ParserNamed (emplace_fundamental g m name encoding p)
  unfolding emplace_fundamental make_fundamental_type TypeNamed
  emplace_fundamental-Named m name encoding p k n =
      >>=-Post (λ f. IsNamed f.encoding) ParserNamed (make_fundamental_type g m name encoding) _
        (>>=-Post_second _ (deref m.type) _ λ t. k)
        λ f named. >>=-Post_second _ (make_qual_type m) _ λ q.
          if_intro (Post ParserNamed) m.is_member
            (emplace_member-Named (qualified_fundamental f q) m p.result p.composite_stack named n.0
              n.1)
            (named, n.1)

  keep_first-Named :
      (r : QualifiedType) (cs : List QualifiedCompound)
      → TypeNamed r
      → StackNamed cs
      → Post ParserNamed (elim cs [
        | [] ↦ fault failed_assertion
        | d ∷ below ↦ done (record {
          result = r;
          composite_stack = record d { type = keep_first_member d.type } ∷ below;
        })
      ])
  keep_first-Named r [] n h = tt
  keep_first-Named r (d ∷ below) n h = (n, (keep_first_member-Named d.type h.0, h.1))

  emplace_enum-Named :
      (b : BasicType) (m : MetaData) (r : QualifiedType) (cs : List QualifiedCompound)
      → TypeNamed r
      → StackNamed cs
      → Post ParserNamed (emplace_enum g b m (record { result = r; composite_stack = cs }))
  unfolding emplace_enum
  emplace_enum-Named b m r [] n h = tt
  emplace_enum-Named b m r (c ∷ cs) n h =
      let p : DiTypeParser = record { result = r; composite_stack = c ∷ cs } in
      >>=-Post_second ParserNamed (assert (is_enum_tag (tag_of c.type))) _ λ u.
        >>=-Post ParserNamed ParserNamed
          (emplace_fundamental g m b.name (dwarf2encoding b.encoding) p) _
          (emplace_fundamental-Named m b.name (dwarf2encoding b.encoding) p
            (dwarf2encoding-IsNamed b.encoding) (n, h))
          (λ q k. keep_first-Named q.result q.composite_stack k.0 k.1)

  made_compound : (c : CompositeType) → CompoundNamed (make_compound c)
  unfolding make_compound CompoundNamed
  made_compound c = (tt, tt, tt)

  pops-Named :
      (m : MetaData) (r : QualifiedType) (cs : List QualifiedCompound)
      → TypeNamed r
      → StackNamed cs
      → Post ParserNamed
          (handle g (finalize_composite m) (record { result = r; composite_stack = cs }))
  unfolding handle
  pops-Named m r [] n h = tt
  pops-Named m r (c ∷ cs) n h =
      finalize-Named m c cs (record { result = r; composite_stack = c ∷ cs }) h.0 h.1 n

  handle-Named : (e : Event) (p : DiTypeParser) → ParserNamed p → Post ParserNamed (handle g e p)
  unfolding handle name_of_case
  handle-Named (make_fundamental m) p n = >>=-Post_second ParserNamed (deref m.type) _ λ t.
      >>=-Post_second ParserNamed (assume (as_basic (g t))) _ λ b.
        emplace_fundamental-Named m b.name (encoding_of b.name b.encoding) p
          (encoding_of-IsNamed b.name b.encoding) n
  handle-Named (make_function_ptr m) p n =
      emplace_fundamental-Named m "" Encoding.function_ptr p (_, refl) n
  handle-Named (make_void_ptr m) p n = >>=-Post_second ParserNamed (deref m.type) _ λ t.
      >>=-Post_second ParserNamed (assert (has_value (as_derived (g t)))) _
        λ u. emplace_fundamental-Named m "void" Encoding.void p (_, refl) n
  handle-Named (make_string m) p n = >>=-Post_second ParserNamed (deref m.type) _ λ t.
      >>=-Post_second ParserNamed (assume (as_string (g t))) _ λ name.
        emplace_fundamental-Named m (if str_eq name "" then "character" else name) Encoding.string p
          (_, refl) n
  handle-Named (make_vtable m) p n = >>=-Post_second ParserNamed (deref m.type) _ λ t.
      >>=-Post_second ParserNamed (assume (as_derived (g t))) _ λ d.
        >>=-Post_second ParserNamed (assert m.is_member) _
          λ u. emplace_fundamental-Named m d.name Encoding.vtable_ptr p (_, refl) n
  handle-Named (make_enum_member m) p n = >>=-Post_second ParserNamed (deref m.type) _ λ t.
      >>=-Post_second ParserNamed (assume (as_basic (g t))) _
        λ b. emplace_enum-Named b m p.result p.composite_stack n.0 n.1
  handle-Named (make_composite m) p n = >>=-Post_second ParserNamed (deref m.type) _ λ t.
      >>=-Post_second ParserNamed (assume (as_composite (g t))) _
        λ c. >>=-Post_second ParserNamed (make_qual_type m) _ λ q. (n.0, (made_compound c, n.1))
  handle-Named (finalize_composite m) p n = pops-Named m p.result p.composite_stack n.0 n.1

  handle_all-Named : (es : List Event) → Post ParserNamed (handle_all g es)
  unfolding handle_all TypeNamed CompoundNamed
  handle_all-Named [] = ((tt, tt, tt), tt)
  handle_all-Named (e ∷ es) =
      >>=-Post ParserNamed ParserNamed (handle_all g es) (handle g e) (handle_all-Named es)
        (handle-Named e)

  -- The type, if there is one, can be written.
  abbrev pub ResultNamed : Option QualifiedType → Type 0
  ResultNamed none = Unit
  ResultNamed (some t) = TypeNamed t

  pub make_dimetadata-ResultNamed :
      (fuel : ℕ) (n : NodeId) → Post ResultNamed (make_dimetadata g fuel n)
  unfolding make_dimetadata
  make_dimetadata-ResultNamed fuel n =
      if_intro (Post ResultNamed) (is_parsed g (g n))
        (>>=-Post_second ResultNamed (traverse_node (event_hooks g) g fuel n (start new_visitor)) _
          λ r.
            >>=-Post ParserNamed ResultNamed (handle_all g r.0.sub.events) _
              (handle_all-Named r.0.sub.events) (λ p k. k.0))
        tt
