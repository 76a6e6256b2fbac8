-- ===== src/DimetaParse/Stack.antt =====
-- DITypeParser of lib/type/DimetaParse.cpp: the composites that are being built, and what is added to them.
use llvm_dimeta.Base.{
  ◌==◌, if◌then◌else◌, failed_assertion, Outcome, done, fault, ℕ, String, Bool, true, false, List,
  [], ◌∷◌, ◌++◌,
}
use llvm_dimeta.QualifiedType.{
  CompoundTag, unknown_tag, enum_tag, enum_class_tag, Qualification, CompoundType, compound_type,
  QualifiedType, qualified_compound, Members, no_members, and_member, Bases, no_bases, and_base,
}
use llvm_dimeta.Parser.{MetaData}

-- QualifiedCompound
pub record QualifiedCompound : Type 0 where
  pub type : CompoundType
  pub qualification : Qualification

-- The stack's top is the head.
pub record DiTypeParser : Type 0 where
  pub result : QualifiedType
  pub composite_stack : List QualifiedCompound

-- The value of a QualifiedType that nothing was assigned to, its first alternative
abbrev pub new_parser : DiTypeParser
new_parser = record {
  result =
      qualified_compound
        (compound_type
          (record {
            name = "";
            identifier = "";
            type = unknown_tag;
            extent = 0;
            offsets = [];
            sizes = [];
          })
          no_bases no_members no_members)
        (record {
          array_size = [];
          qual = [];
          typedef_name = "";
          vector_size = 0;
          is_vector = false;
          is_forward_decl = false;
          is_recurring = false;
        });
  composite_stack = [];
}

-- emplace_back on the vectors of members and of bases
unfoldable pub append_member : Members → String → QualifiedType → Members
append_member no_members name t = and_member name t no_members
append_member (and_member n u ms) name t = and_member n u (append_member ms name t)

unfoldable pub append_base : Bases → QualifiedCompound → ℕ → Bool → Bases
append_base no_bases b offset is_empty = and_base b.type b.qualification offset is_empty no_bases
append_base (and_base c q o e bs) b offset is_empty =
    and_base c q o e (append_base bs b offset is_empty)

unfoldable pub add_member : MetaData → QualifiedType → CompoundType → CompoundType
unfolding append_member
add_member m t (compound_type h bs ms ss) =
    if m.is_member_static
    then compound_type h bs ms (append_member ss m.member_name t)
    else compound_type
        (record h {
          offsets = h.offsets ++ m.member_offset ∷ [];
          sizes = h.sizes ++ m.member_size ∷ [];
        })
        bs (append_member ms m.member_name t) ss

unfoldable pub emplace_member : QualifiedType → MetaData → DiTypeParser → Outcome DiTypeParser
unfolding add_member
emplace_member t m p = elim p.composite_stack [
  | [] ↦ fault failed_assertion
  | c ∷ rest ↦
      done (record p { composite_stack = record c { type = add_member m t c.type } ∷ rest })
]

abbrev pub emplace_result : QualifiedType → DiTypeParser → DiTypeParser
emplace_result t p = record p { result = t }

-- Erase all but the first.
abbrev pub first_only : List ℕ → List ℕ
first_only [] = []
first_only (n ∷ ns) = n ∷ []

abbrev pub tag_of : CompoundType → CompoundTag
tag_of (compound_type h bs ms ss) = h.type

abbrev pub is_enum_tag : CompoundTag → Bool
is_enum_tag enum_tag = true
is_enum_tag enum_class_tag = true
is_enum_tag _ = false

abbrev pub keep_first_member : CompoundType → CompoundType
keep_first_member (compound_type h bs ms ss) =
    compound_type (record h { sizes = first_only h.sizes; offsets = first_only h.offsets }) bs ms ss

-- An extent of one byte, and no members
unfoldable pub is_empty_base_class : CompoundType → Bool
is_empty_base_class (compound_type h bs no_members ss) = h.extent == 1
is_empty_base_class (compound_type h bs (and_member n t ms) ss) = false

unfoldable pub add_base : MetaData → QualifiedCompound → CompoundType → CompoundType
unfolding append_base is_empty_base_class
add_base m b (compound_type h bs ms ss) =
    compound_type h (append_base bs b m.member_offset (is_empty_base_class b.type)) ms ss

-- finalize_composite of the composite that was popped; `rest` is the stack below it.
unfoldable pub finalize :
    MetaData → QualifiedCompound → List QualifiedCompound → DiTypeParser → Outcome DiTypeParser
unfolding emplace_member add_base
finalize m c rest p =
    if m.is_member
    then emplace_member (qualified_compound c.type c.qualification) m
        (record p { composite_stack = rest })
    else if m.is_base_class
    then elim rest [
      | [] ↦ fault failed_assertion
      | d ∷ below ↦
          done (record p { composite_stack = record d { type = add_base m c d.type } ∷ below })
    ]
    else elim rest [
      | [] ↦
          done (record { result = qualified_compound c.type c.qualification; composite_stack = [] })
      | d ∷ below ↦ fault failed_assertion
    ]
