-- ===== src/DimetaParse/Named.antt =====
-- What lib/type/DimetaParse.cpp adds to the composites that are being built keeps them writable.

use llvm_dimeta.Base.{
  ◌==◌, has_value, if_intro, All, Post, ℕ, String, refl, Bool, not, ◌&&◌, List, [], ◌∷◌, str_eq,
  find?,
}
use llvm_dimeta.QualifiedType.{
  CompoundType, compound_type, QualifiedType, qualified_compound, Members, no_members, and_member,
  Bases, no_bases, and_base,
}
use llvm_dimeta.Parser.{MetaData}
use llvm_dimeta.DimetaParse.Qualify.{dwarf2encoding, encoding_of}
use llvm_dimeta.DimetaParse.Stack.{
  QualifiedCompound, DiTypeParser, append_member, append_base, add_member, emplace_member,
  keep_first_member, is_empty_base_class, add_base, finalize,
}
use llvm_dimeta.DimetaIo.Names.{name_of_case}
use llvm_dimeta.DimetaIo.Written.{IsNamed, CompoundNamed, TypeNamed, MembersNamed, BasesNamed}

-- The result and the composites on the stack can be written.
abbrev pub StackNamed : List QualifiedCompound → Type 0
StackNamed cs = All (λ c. CompoundNamed c.type) cs

abbrev pub ParserNamed : DiTypeParser → Type 0
ParserNamed p = TypeNamed p.result × StackNamed p.composite_stack

pub dwarf2encoding-IsNamed : (n : ℕ) → IsNamed (dwarf2encoding n)
unfolding dwarf2encoding name_of_case
dwarf2encoding-IsNamed n =
    if_intro IsNamed (n == 4) (_, refl)
      (if_intro IsNamed (n == 5) (_, refl)
        (if_intro IsNamed (n == 7) (_, refl)
          (if_intro IsNamed (n == 8) (_, refl)
            (if_intro IsNamed (n == 6) (_, refl)
              (if_intro IsNamed (n == 2) (_, refl)
                (if_intro IsNamed (n == 16) (_, refl)
                  (if_intro IsNamed (n == 3) (_, refl) (_, refl))))))))

pub encoding_of-IsNamed : (name : String) (n : ℕ) → IsNamed (encoding_of name n)
unfolding encoding_of name_of_case
encoding_of-IsNamed name n =
    if_intro IsNamed (not (str_eq name "") && has_value (find? name "nullptr")) (_, refl)
      (dwarf2encoding-IsNamed n)

append_member-Named :
    (ms : Members) (name : String) (t : QualifiedType)
    → MembersNamed ms
    → TypeNamed t
    → MembersNamed (append_member ms name t)
unfolding append_member MembersNamed
append_member-Named no_members name t h k = (k, tt)
append_member-Named (and_member n u ms) name t h k = (h.0, append_member-Named ms name t h.1 k)

append_base-Named :
    (bs : Bases) (b : QualifiedCompound) (offset : ℕ) (is_empty : Bool)
    → BasesNamed bs
    → CompoundNamed b.type
    → BasesNamed (append_base bs b offset is_empty)
unfolding append_base BasesNamed
append_base-Named no_bases b offset is_empty h k = (k, tt)
append_base-Named (and_base c q o e bs) b offset is_empty h k =
    (h.0, append_base-Named bs b offset is_empty h.1 k)

add_member-Named :
    (m : MetaData) (t : QualifiedType) (c : CompoundType)
    → TypeNamed t
    → CompoundNamed c
    → CompoundNamed (add_member m t c)
unfolding add_member CompoundNamed
add_member-Named m t (compound_type h bs ms ss) k n =
    if_intro CompoundNamed m.is_member_static
      (n.0, n.1, append_member-Named ss m.member_name t n.2 k)
      (n.0, append_member-Named ms m.member_name t n.1 k, n.2)

add_base-Named :
    (m : MetaData) (b : QualifiedCompound) (c : CompoundType)
    → CompoundNamed b.type
    → CompoundNamed c
    → CompoundNamed (add_base m b c)
unfolding add_base CompoundNamed
add_base-Named m b (compound_type h bs ms ss) k n =
    (append_base-Named bs b m.member_offset (is_empty_base_class b.type) n.0 k, n.1, n.2)

pub keep_first_member-Named :
    (c : CompoundType) → CompoundNamed c → CompoundNamed (keep_first_member c)
unfolding CompoundNamed
keep_first_member-Named (compound_type h bs ms ss) n = n

pub emplace_member-Named :
    (t : QualifiedType) (m : MetaData) (r : QualifiedType) (cs : List QualifiedCompound)
    → TypeNamed t
    → TypeNamed r
    → StackNamed cs
    → Post ParserNamed (emplace_member t m (record { result = r; composite_stack = cs }))
unfolding emplace_member
emplace_member-Named t m r [] k n h = tt
emplace_member-Named t m r (c ∷ cs) k n h = (n, (add_member-Named m t c.type k h.0, h.1))

pub finalize-Named :
    (m : MetaData) (c : QualifiedCompound) (rest : List QualifiedCompound) (p : DiTypeParser)
    → CompoundNamed c.type
    → StackNamed rest
    → TypeNamed p.result
    → Post ParserNamed (finalize m c rest p)
unfolding finalize TypeNamed
finalize-Named m c [] p k h n =
    if_intro (Post ParserNamed) m.is_member
      (emplace_member-Named (qualified_compound c.type c.qualification) m p.result [] k n h)
      (if_intro (Post ParserNamed) m.is_base_class tt (k, tt))
finalize-Named m c (d ∷ below) p k h n =
    if_intro (Post ParserNamed) m.is_member
      (emplace_member-Named (qualified_compound c.type c.qualification) m p.result (d ∷ below) k n
        h)
      (if_intro (Post ParserNamed) m.is_base_class (n, (add_base-Named m c d.type k h.0, h.1)) tt)
