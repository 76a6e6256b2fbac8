-- ===== src/DimetaParse/Steps.antt =====
-- What one event does to the state of the handler in lib/type/DimetaParse.cpp, by the recursive function.

use llvm_dimeta.Parser.Nesting.{is_plain}
use llvm_dimeta.Base.{
  if◌then◌else◌, has_value, failed_assertion, Outcome, done, fault, ◌>>=◌, ◌>>◌, deref, assert,
  >>=_assoc, >>=_frame, ℕ, String, ◌≡◌, refl, ap, ◌∙◌, true, Option, none, some, List, [], ◌∷◌,
  arith, str_eq,
}
use llvm_dimeta.Metadata.{BasicType, Metadata, as_derived, as_composite}
use llvm_dimeta.QualifiedType.{QualifiedType, qualified_fundamental}
use llvm_dimeta.Parser.{
  MetaData, Event, make_fundamental, make_function_ptr, make_void_ptr, make_string, make_vtable,
  make_enum_member, make_composite, finalize_composite,
}
use llvm_dimeta.DimetaParse.Qualify.{
  dwarf2encoding, make_qual_type, make_fundamental_type, encoding_of,
}
use llvm_dimeta.DimetaParse.Stack.{
  QualifiedCompound, DiTypeParser, emplace_member, emplace_result, tag_of, is_enum_tag,
  keep_first_member, finalize,
}
use llvm_dimeta.DimetaParse.Handler.{
  as_basic, as_string, assume, emplace_fundamental, emplace_enum, handle,
}
use llvm_dimeta.DimetaParse.Builder.{
  Site, place, build_fundamental, trim_enum, in_enum, build_leaf, new_compound, place_compound,
  around_of,
}
use llvm_dimeta.DimetaParse.Encoding

-- The handler's state at a site: the composite around it is on top of the stack.
abbrev pub stack_of : Option QualifiedCompound → List QualifiedCompound → List QualifiedCompound
stack_of none rest = []
stack_of (some c) rest = c ∷ rest

abbrev pub state_of : List QualifiedCompound → Site → DiTypeParser
state_of rest s = record { result = s.result; composite_stack = stack_of s.around rest }

abbrev pub at_state : List QualifiedCompound → Site → Outcome DiTypeParser
at_state rest s = done (state_of rest s)

abbrev pub site : QualifiedType → Option QualifiedCompound → Site
site r around = record { result = r; around = around }

place_lem :
    (m : MetaData) (t r : QualifiedType) (around : Option QualifiedCompound)
    (rest : List QualifiedCompound)
    → (if m.is_member
        then emplace_member t m (state_of rest (site r around))
        else done (emplace_result t (state_of rest (site r around))))
      ≡ (place m t (site r around) >>= at_state rest)
unfolding place emplace_member
place_lem m t r none rest = ground arith
place_lem m t r (some c) rest = ground arith

-- What emplace_enum does after the member was placed
abbrev keep_first : QualifiedType → List QualifiedCompound → Outcome DiTypeParser
keep_first r stack = elim stack [
  | [] ↦ fault failed_assertion
  | d ∷ below ↦ done (record {
    result = r;
    composite_stack = record d { type = keep_first_member d.type } ∷ below;
  })
]

module _ (g : Metadata) where
  trim_lem :
      (r : QualifiedType) (around : Option QualifiedCompound) (rest : List QualifiedCompound)
      → keep_first r (stack_of around rest) ≡ (trim_enum g (site r around) >>= at_state rest)
  unfolding trim_enum
  trim_lem r none rest = refl
  trim_lem r (some c) rest = refl

  fundamental_lem :
      (m : MetaData) (name : String) (encoding : ℕ) (s : Site) (rest : List QualifiedCompound)
      → emplace_fundamental g m name encoding (state_of rest s)
        ≡ (build_fundamental g m name encoding s >>= at_state rest)
  unfolding emplace_fundamental build_fundamental
  fundamental_lem m name encoding s rest =
      >>=_frame (make_fundamental_type g m name encoding) _ _ (at_state rest) λ f.
        >>=_frame (make_qual_type m) _ _ (at_state rest)
          λ q. place_lem m (qualified_fundamental f q) s.result s.around rest

  enum_lem :
      (b : BasicType) (m : MetaData) (r : QualifiedType) (around : Option QualifiedCompound)
      (rest : List QualifiedCompound)
      → emplace_enum g b m (state_of rest (site r around)) ≡ (
          (do
            in_enum g (site r around)
            t ← build_fundamental g m b.name (dwarf2encoding b.encoding) (site r around)
            trim_enum g t)
          >>= at_state rest)
  unfolding emplace_enum trim_enum
  enum_lem b m r none rest = refl
  enum_lem b m r (some c) rest =
      >>=_frame (assert (is_enum_tag (tag_of c.type))) _ _ (at_state rest) λ u.
        (ap (λ (x : Outcome DiTypeParser). x >>= λ p. keep_first p.result p.composite_stack)
            (fundamental_lem m b.name (dwarf2encoding b.encoding) (site r (some c)) rest)
          ∙ >>=_assoc (build_fundamental g m b.name (dwarf2encoding b.encoding) (site r (some c)))
              (at_state rest) (λ p. keep_first p.result p.composite_stack))
        ∙ >>=_frame (build_fundamental g m b.name (dwarf2encoding b.encoding) (site r (some c))) _ _
            (at_state rest) λ s. trim_lem s.result s.around rest

  pub leaf_lem :
      (e : Event) (s : Site) (rest : List QualifiedCompound)
      → is_plain e ≡ true
      → handle g e (state_of rest s) ≡ (build_leaf g e s >>= at_state rest)
  unfolding handle build_leaf
  leaf_lem (make_fundamental m) s rest h = >>=_frame (deref m.type) _ _ (at_state rest) λ t.
      >>=_frame (assume (as_basic (g t))) _ _ (at_state rest)
        λ b. fundamental_lem m b.name (encoding_of b.name b.encoding) s rest
  leaf_lem (make_function_ptr m) s rest h = fundamental_lem m "" Encoding.function_ptr s rest
  leaf_lem (make_void_ptr m) s rest h = >>=_frame (deref m.type) _ _ (at_state rest) λ t.
      >>=_frame (assert (has_value (as_derived (g t)))) _ _ (at_state rest)
        λ u. fundamental_lem m "void" Encoding.void s rest
  leaf_lem (make_string m) s rest h = >>=_frame (deref m.type) _ _ (at_state rest) λ t.
      >>=_frame (assume (as_string (g t))) _ _ (at_state rest) λ name.
        fundamental_lem m (if str_eq name "" then "character" else name) Encoding.string s rest
  leaf_lem (make_vtable m) s rest h = >>=_frame (deref m.type) _ _ (at_state rest) λ t.
      >>=_frame (assume (as_derived (g t))) _ _ (at_state rest) λ d.
        >>=_frame (assert m.is_member) _ _ (at_state rest)
          λ u. fundamental_lem m d.name Encoding.vtable_ptr s rest
  leaf_lem (make_enum_member m) s rest h = >>=_frame (deref m.type) _ _ (at_state rest) λ t.
      >>=_frame (assume (as_basic (g t))) _ _ (at_state rest)
        λ b. enum_lem b m s.result s.around rest
  leaf_lem (make_composite m) s rest h = cc
  leaf_lem (finalize_composite m) s rest h = cc

  -- Opening a composite puts a new site on the stack.
  pub open_lem :
      (m : MetaData) (s : Site) (rest : List QualifiedCompound)
      → handle g (make_composite m) (state_of rest s)
        ≡ (new_compound g m >>= λ c. at_state (stack_of s.around rest) (site s.result (some c)))
  unfolding handle new_compound
  open_lem m s rest = >>=_frame (deref m.type) _ _ _ λ t.
      >>=_frame (assume (as_composite (g t))) _ _ _
        λ c. >>=_frame (make_qual_type m) _ _ _ λ q. refl

  -- Closing it puts the compound at the site below.
  place_compound_lem :
      (m : MetaData) (c : QualifiedCompound) (r : QualifiedType) (around : Option QualifiedCompound)
      (rest : List QualifiedCompound)
      → finalize m c
          (stack_of around rest)
          (record { result = r; composite_stack = c ∷ stack_of around rest })
        ≡ (place_compound g m c (site r around) >>= at_state rest)
  unfolding finalize place_compound place emplace_member
  place_compound_lem m c r none rest = ground arith
  place_compound_lem m c r (some d) rest = ground arith

  pub close_lem :
      (m : MetaData) (s : Site) (r : QualifiedType) (inner : Option QualifiedCompound)
      (rest : List QualifiedCompound)
      → handle g (finalize_composite m) (state_of (stack_of s.around rest) (site r inner)) ≡ (
          (around_of g (site r inner) >>= λ c. place_compound g m c (site r s.around))
          >>= at_state rest)
  unfolding handle
  close_lem m s r none rest = refl
  close_lem m s r (some c) rest = place_compound_lem m c r s.around rest
