-- ===== src/DimetaIo/Written.antt =====
-- When lib/type/DimetaIO.cpp can write a type: the enumeration of the encodings has a name for each that
-- occurs in it. The reader's and the writer's library stops the program at a value without a name.

use llvm_dimeta.Base.{ℕ, ◌≡◌, refl, ◌↔◌, Option, none, some}
use llvm_dimeta.QualifiedType.{
  FundamentalType, Qualification, CompoundType, compound_type, QualifiedType, qualified_compound,
  qualified_fundamental, Members, no_members, and_member, Bases, no_bases, and_base,
}
use llvm_dimeta.DimetaIo.{◌>>=◌}
use llvm_dimeta.DimetaIo.Names.{name_of_case, encodings}
use llvm_dimeta.DimetaIo.Emit.{
  emit_fundamental_type, emit_fundamental, emit_compound_type, emit_qualified, emit_members,
  emit_bases,
}

abbrev pub Succeeds {ℓ} : {A : Type ℓ} → Option A → Type ℓ
Succeeds {A} m = (a : A) × (m ≡ some a)

pub >>=-Succeeds {ℓ κ} :
    {A : Type ℓ} {B : Type κ} (m : Option A) (f : A → Option B)
    → Succeeds m
    → ((a : A) → Succeeds (f a))
    → Succeeds (m >>= f)
>>=-Succeeds none f (a, e) k = cc
>>=-Succeeds (some a) f h k = k a

-- Both parts of a bind that succeeds succeeded; the second fits what the first returned.
Succeeds-both {ℓ κ} :
    {A : Type ℓ} {B : Type κ} (m : Option A) (f : A → Option B)
    → Succeeds (m >>= f)
    → Succeeds m × (a : A) × Succeeds (f a)
Succeeds-both none f (b, e) = cc
Succeeds-both (some a) f h = ((a, refl), a, h)

-- The encoding has a name.
abbrev pub IsNamed : ℕ → Type 0
IsNamed encoding = Succeeds (name_of_case encodings encoding)

-- The fundamental types in it have encodings with names.
unfoldable mutual
  pub CompoundNamed : CompoundType → Type 0
  CompoundNamed (compound_type h bs ms ss) = BasesNamed bs × MembersNamed ms × MembersNamed ss

  pub TypeNamed : QualifiedType → Type 0
  TypeNamed (qualified_compound c q) = CompoundNamed c
  TypeNamed (qualified_fundamental f q) = IsNamed f.encoding

  pub MembersNamed : Members → Type 0
  MembersNamed no_members = Unit
  MembersNamed (and_member n t ms) = TypeNamed t × MembersNamed ms

  pub BasesNamed : Bases → Type 0
  BasesNamed no_bases = Unit
  BasesNamed (and_base c q o e bs) = CompoundNamed c × BasesNamed bs

fundamental_written :
    (f : FundamentalType) (q : Qualification) → IsNamed f.encoding → Succeeds (emit_fundamental f q)
unfolding emit_fundamental emit_fundamental_type
fundamental_written f q n =
    >>=-Succeeds (emit_fundamental_type f) _
      (>>=-Succeeds (name_of_case encodings f.encoding) _ n λ s. (_, refl)) λ y. (_, refl)

mutual
  unfolding emit_compound_type emit_qualified emit_members emit_bases CompoundNamed TypeNamed
      MembersNamed BasesNamed

  compound_written : (c : CompoundType) → CompoundNamed c → Succeeds (emit_compound_type c)
  compound_written (compound_type h bs ms ss) n =
      >>=-Succeeds (emit_bases bs) _ (bases_written bs n.0) λ b.
        >>=-Succeeds (emit_members ms) _ (members_written ms n.1)
          λ m. >>=-Succeeds (emit_members ss) _ (members_written ss n.2) λ s. (_, refl)

  pub type_written : (t : QualifiedType) → TypeNamed t → Succeeds (emit_qualified t)
  type_written (qualified_compound c q) n =
      >>=-Succeeds (emit_compound_type c) _ (compound_written c n) λ y. (_, refl)
  type_written (qualified_fundamental f q) n =
      >>=-Succeeds (emit_fundamental f q) _ (fundamental_written f q n) λ y. (_, refl)

  members_written : (ms : Members) → MembersNamed ms → Succeeds (emit_members ms)
  members_written no_members n = (_, refl)
  members_written (and_member name t ms) n =
      >>=-Succeeds (emit_qualified t) _ (type_written t n.0)
        λ f. >>=-Succeeds (emit_members ms) _ (members_written ms n.1) λ r. (_, refl)

  bases_written : (bs : Bases) → BasesNamed bs → Succeeds (emit_bases bs)
  bases_written no_bases n = (_, refl)
  bases_written (and_base c q o e bs) n =
      >>=-Succeeds (emit_compound_type c) _ (compound_written c n.0)
        λ y. >>=-Succeeds (emit_bases bs) _ (bases_written bs n.1) λ r. (_, refl)

fundamental-IsNamed :
    (f : FundamentalType) (q : Qualification) → Succeeds (emit_fundamental f q) → IsNamed f.encoding
unfolding emit_fundamental emit_fundamental_type
fundamental-IsNamed f q h =
    let written = (Succeeds-both (emit_fundamental_type f) _ h).0 in
    (Succeeds-both (name_of_case encodings f.encoding) _ written).0

mutual
  unfolding emit_compound_type emit_qualified emit_members emit_bases CompoundNamed TypeNamed
      MembersNamed BasesNamed

  compound-CompoundNamed : (c : CompoundType) → Succeeds (emit_compound_type c) → CompoundNamed c
  compound-CompoundNamed (compound_type h bs ms ss) w =
      let (b, x, w1) = Succeeds-both (emit_bases bs) _ w in
      let (m, y, w2) = Succeeds-both (emit_members ms) _ w1 in
      let (s, z, w3) = Succeeds-both (emit_members ss) _ w2 in
      (bases-BasesNamed bs b, members-MembersNamed ms m, members-MembersNamed ss s)

  type-TypeNamed : (t : QualifiedType) → Succeeds (emit_qualified t) → TypeNamed t
  type-TypeNamed (qualified_compound c q) w =
      compound-CompoundNamed c (Succeeds-both (emit_compound_type c) _ w).0
  type-TypeNamed (qualified_fundamental f q) w =
      fundamental-IsNamed f q (Succeeds-both (emit_fundamental f q) _ w).0

  members-MembersNamed : (ms : Members) → Succeeds (emit_members ms) → MembersNamed ms
  members-MembersNamed no_members w = tt
  members-MembersNamed (and_member name t ms) w =
      let (f, x, w1) = Succeeds-both (emit_qualified t) _ w in
      (type-TypeNamed t f, members-MembersNamed ms (Succeeds-both (emit_members ms) _ w1).0)

  bases-BasesNamed : (bs : Bases) → Succeeds (emit_bases bs) → BasesNamed bs
  bases-BasesNamed no_bases w = tt
  bases-BasesNamed (and_base c q o e bs) w =
      let (y, x, w1) = Succeeds-both (emit_compound_type c) _ w in
      (compound-CompoundNamed c y, bases-BasesNamed bs (Succeeds-both (emit_bases bs) _ w1).0)

-- A type is written exactly if each fundamental type in it has an encoding that the enumeration has a name
-- for; else the writing fails.
pub emit_qualified-TypeNamed : (t : QualifiedType) → Succeeds (emit_qualified t) ↔ TypeNamed t
emit_qualified-TypeNamed t = (type-TypeNamed t, type_written t)
