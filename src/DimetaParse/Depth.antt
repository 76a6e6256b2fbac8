-- ===== src/DimetaParse/Depth.antt =====
-- The stack of lib/type/DimetaParse.cpp: the composites on it are those that the events have open.

use llvm_dimeta.Parser.Callbacks.{event_hooks}
use llvm_dimeta.Visitor.{start, traverse_node}
use llvm_dimeta.Parser.Nesting.{is_plain, Nested, nothing, plain, opens, closes, parser-Nested}
use llvm_dimeta.Base.{
  if◌then◌else◌, has_value, if_intro, length, failed_assertion, done, fault, deref, assert, Post,
  >>=-Post, >>=-Post_second, Post-map, ℕ, suc, String, ◌≡◌, refl, subst, true, List, [], ◌∷◌, arith,
  str_eq,
}
use llvm_dimeta.Metadata.{NodeId, BasicType, Metadata, as_derived, as_composite}
use llvm_dimeta.QualifiedType.{QualifiedType, qualified_compound}
use llvm_dimeta.Parser.{
  MetaData, Event, make_fundamental, make_function_ptr, make_void_ptr, make_string, make_vtable,
  make_enum_member, make_composite, finalize_composite, new_visitor,
}
use llvm_dimeta.DimetaParse.Encoding
use llvm_dimeta.DimetaParse.Qualify.{
  dwarf2encoding, make_qual_type, make_fundamental_type, encoding_of,
}
use llvm_dimeta.DimetaParse.Stack.{
  QualifiedCompound, DiTypeParser, emplace_member, tag_of, is_enum_tag, keep_first_member, finalize,
}
use llvm_dimeta.DimetaParse.Handler.{
  as_basic, as_string, assume, emplace_fundamental, emplace_enum, handle, handle_all,
}

-- `k` composites are on the stack.
abbrev pub HasDepth : ℕ → DiTypeParser → Type 0
HasDepth k p = length p.composite_stack ≡ k

emplace_member-HasDepth :
    (t : QualifiedType) (m : MetaData) (r : QualifiedType) (cs : List QualifiedCompound)
    → Post (HasDepth (length cs)) (emplace_member t m (record { result = r; composite_stack = cs }))
unfolding emplace_member
emplace_member-HasDepth t m r [] = tt
emplace_member-HasDepth t m r (c ∷ cs) = refl

keep_first_HasDepth :
    {k : ℕ} (r : QualifiedType) (cs : List QualifiedCompound)
    → length cs ≡ k
    → Post (HasDepth k) (elim cs [
      | [] ↦ fault failed_assertion
      | d ∷ below ↦ done (record {
        result = r;
        composite_stack = record d { type = keep_first_member d.type } ∷ below;
      })
    ])
keep_first_HasDepth r [] h = tt
keep_first_HasDepth r (d ∷ below) h = h

module _ (g : Metadata) where
  emplace_fundamental-HasDepth :
      (m : MetaData) (name : String) (encoding : ℕ) (p : DiTypeParser)
      → Post (HasDepth (length p.composite_stack)) (emplace_fundamental g m name encoding p)
  unfolding emplace_fundamental
  emplace_fundamental-HasDepth m name encoding p =
      >>=-Post_second _ (make_fundamental_type g m name encoding) _ λ f.
        >>=-Post_second _ (make_qual_type m) _ λ q.
          if_intro (Post (HasDepth (length p.composite_stack))) m.is_member
            (emplace_member-HasDepth _ m p.result p.composite_stack) refl

  emplace_enum-HasDepth :
      (b : BasicType) (m : MetaData) (r : QualifiedType) (cs : List QualifiedCompound)
      → Post
          (HasDepth (length cs))
          (emplace_enum g b m (record { result = r; composite_stack = cs }))
  unfolding emplace_enum
  emplace_enum-HasDepth b m r [] = tt
  emplace_enum-HasDepth b m r (c ∷ cs) =
      let p : DiTypeParser = record { result = r; composite_stack = c ∷ cs } in
      >>=-Post_second (HasDepth (suc (length cs))) (assert (is_enum_tag (tag_of c.type))) _ λ u.
        >>=-Post (HasDepth (suc (length cs))) (HasDepth (suc (length cs)))
          (emplace_fundamental g m b.name (dwarf2encoding b.encoding) p) _
          (emplace_fundamental-HasDepth m b.name (dwarf2encoding b.encoding) p)
          (λ r h. keep_first_HasDepth r.result r.composite_stack h)

  finalize-HasDepth :
      (m : MetaData) (c : QualifiedCompound) (rest : List QualifiedCompound) (p : DiTypeParser)
      → Post (HasDepth (length rest)) (finalize m c rest p)
  unfolding finalize
  finalize-HasDepth m c [] p =
      if_intro (Post (HasDepth 0)) m.is_member
        (emplace_member-HasDepth (qualified_compound c.type c.qualification) m p.result [])
        (if_intro (Post (HasDepth 0)) m.is_base_class tt refl)
  finalize-HasDepth m c (d ∷ below) p =
      if_intro (Post (HasDepth (suc (length below)))) m.is_member
        (emplace_member-HasDepth (qualified_compound c.type c.qualification) m p.result (d ∷ below))
        (if_intro (Post (HasDepth (suc (length below)))) m.is_base_class refl tt)

  handle-HasDepth :
      (e : Event) (p : DiTypeParser)
      → is_plain e ≡ true
      → Post (HasDepth (length p.composite_stack)) (handle g e p)
  unfolding handle
  handle-HasDepth (make_fundamental m) p h =
      let D = HasDepth (length p.composite_stack) in
      >>=-Post_second D (deref m.type) _ λ t.
        >>=-Post_second D (assume (as_basic (g t))) _
          λ b. emplace_fundamental-HasDepth m b.name (encoding_of b.name b.encoding) p
  handle-HasDepth (make_function_ptr m) p h =
      emplace_fundamental-HasDepth m "" Encoding.function_ptr p
  handle-HasDepth (make_void_ptr m) p h =
      let D = HasDepth (length p.composite_stack) in
      >>=-Post_second D (deref m.type) _ λ t.
        >>=-Post_second D (assert (has_value (as_derived (g t)))) _
          λ u. emplace_fundamental-HasDepth m "void" Encoding.void p
  handle-HasDepth (make_string m) p h =
      let D = HasDepth (length p.composite_stack) in
      >>=-Post_second D (deref m.type) _ λ t. >>=-Post_second D (assume (as_string (g t))) _ λ name.
        emplace_fundamental-HasDepth m (if str_eq name "" then "character" else name)
          Encoding.string p
  handle-HasDepth (make_vtable m) p h =
      let D = HasDepth (length p.composite_stack) in
      >>=-Post_second D (deref m.type) _ λ t. >>=-Post_second D (assume (as_derived (g t))) _ λ d.
        >>=-Post_second D (assert m.is_member) _
          λ u. emplace_fundamental-HasDepth m d.name Encoding.vtable_ptr p
  handle-HasDepth (make_enum_member m) p h =
      let D = HasDepth (length p.composite_stack) in
      >>=-Post_second D (deref m.type) _ λ t.
        >>=-Post_second D (assume (as_basic (g t))) _
          λ b. emplace_enum-HasDepth b m p.result p.composite_stack
  handle-HasDepth (make_composite m) p h = cc
  handle-HasDepth (finalize_composite m) p h = cc

  opens-HasDepth :
      (m : MetaData) (p : DiTypeParser)
      → Post (HasDepth (suc (length p.composite_stack))) (handle g (make_composite m) p)
  unfolding handle
  opens-HasDepth m p =
      let D = HasDepth (suc (length p.composite_stack)) in
      >>=-Post_second D (deref m.type) _ λ t.
        >>=-Post_second D (assume (as_composite (g t))) _
          λ c. >>=-Post_second D (make_qual_type m) _ λ q. refl

  closes-HasDepth :
      (m : MetaData) (r : QualifiedType) (cs : List QualifiedCompound) (k : ℕ)
      → length cs ≡ suc k
      → Post
          (HasDepth k)
          (handle g (finalize_composite m) (record { result = r; composite_stack = cs }))
  unfolding handle
  closes-HasDepth m r [] k h = tt
  closes-HasDepth m r (c ∷ cs) k h =
      let e : length cs ≡ k = grind arith in
      subst
        (λ l. Post (HasDepth l) (finalize m c cs (record { result = r; composite_stack = c ∷ cs })))
        e (finalize-HasDepth m c cs (record { result = r; composite_stack = c ∷ cs }))

  -- Handling events that nest leaves as many composites on the stack as are open.
  pub handle_all-HasDepth :
      {es : List Event} {open_ones : List MetaData}
      → Nested es open_ones
      → Post (HasDepth (length open_ones)) (handle_all g es)
  unfolding handle_all
  handle_all-HasDepth nothing = refl
  handle_all-HasDepth (plain e {es} {open_ones = o} is_plain_e n) =
      >>=-Post (HasDepth (length o)) (HasDepth (length o)) (handle_all g es) (handle g e)
        (handle_all-HasDepth n)
        (λ p h. subst (λ l. Post (HasDepth l) (handle g e p)) h (handle-HasDepth e p is_plain_e))
  handle_all-HasDepth (opens m {es} {open_ones = o} n) =
      >>=-Post (HasDepth (length o)) (HasDepth (suc (length o))) (handle_all g es) _
        (handle_all-HasDepth n)
        (λ p h.
          subst (λ l. Post (HasDepth (suc l)) (handle g (make_composite m) p)) h
            (opens-HasDepth m p))
  handle_all-HasDepth (closes m {es} {open_ones = o} n) =
      >>=-Post (HasDepth (suc (length o))) (HasDepth (length o)) (handle_all g es) _
        (handle_all-HasDepth n) (λ p h. closes-HasDepth m p.result p.composite_stack (length o) h)

  -- If a traversal by the parser returns and its events are handled without a fault, no composite is left
  -- on the stack of those that are being built.
  pub parsed-HasDepth :
      (fuel : ℕ) (n : NodeId)
      → Post
          (λ r. Post (HasDepth 0) (handle_all g r.0.sub.events))
          (traverse_node (event_hooks g) g fuel n (start new_visitor))
  parsed-HasDepth fuel n =
      Post-map (λ r h. handle_all-HasDepth h.0)
        (traverse_node (event_hooks g) g fuel n (start new_visitor)) (parser-Nested g fuel n)
