-- ===== src/DimetaIo/Compounds.antt =====
-- The parts of a type that lib/type/DimetaIO.cpp wrote are read back: its encoding, its tag, and the
-- fields of a compound whose members are read back.
use llvm_dimeta.Base.{
  if◌then◌else◌, ℕ, String, ◌≡◌, refl, sym, subst, ◌∙◌, Bool, true, false, not, ◌&&◌, Option, none,
  some, some-injective, List, [], ◌∷◌, arith, str_eq, eq_iff,
}
use llvm_dimeta.QualifiedType.{
  FundamentalType, CompoundTag, unknown_tag, struct_tag, class_tag, union_tag, enum_tag,
  enum_class_tag, Qualification, CompoundHead, compound_type, QualifiedType, qualified_fundamental,
  Members, no_members, Bases, no_bases,
}
use llvm_dimeta.DimetaIo.{
  Yaml, text, number, sequence, mapping, Items, no_items, item, Entries, entry, ◌>>=◌, find_key,
  required, optional, read_number, is_empty_items,
}
use llvm_dimeta.DimetaIo.Names.{name_of_case, case_of_name, encodings, tag_name, read_tag}
use llvm_dimeta.DimetaIo.Emit.{
  qualtype_fields, emit_fundamental_type, emit_fundamental, compound_fields,
}
use llvm_dimeta.DimetaIo.Read.{
  read_encoding, read_fundamental_type, read_fundamental, read_members, read_bases, read_sequence,
  read_compound_type,
}
use llvm_dimeta.DimetaIo.Fields.{
  find_key-put, optional-if, optional-items_of, optional-text, read_qualtype_fields_lem,
}

pub >>=-eq-some {ℓ κ} :
    {A : Type ℓ} {B : Type κ} (m : Option A) (f : A → Option B) {b : B}
    → (m >>= f) ≡ some b
    → (a : A) × (m ≡ some a) × (f a ≡ some b)
>>=-eq-some (some a) f h = (a, refl, h)
>>=-eq-some none f h = cc

-- No case has the name; the cases have different names.
abbrev is_fresh : String → List (ℕ × String) → Bool
is_fresh t [] = true
is_fresh t ((m, s) ∷ cases) = not (str_eq t s) && is_fresh t cases

abbrev are_distinct : List (ℕ × String) → Bool
are_distinct [] = true
are_distinct ((m, s) ∷ cases) = is_fresh s cases && are_distinct cases

name_of_case-is_fresh :
    (t : String) (cases : List (ℕ × String)) (n : ℕ) (s : String)
    → is_fresh t cases ≡ true
    → name_of_case cases n ≡ some s
    → str_eq t s ≡ false
unfolding name_of_case
name_of_case-is_fresh t [] n s h e = cc
name_of_case-is_fresh t ((m, u) ∷ cases) n s h e = ground (arith, name_of_case-is_fresh t cases n s)

case_of_name-name_of_case :
    (cases : List (ℕ × String)) (n : ℕ) (s : String)
    → are_distinct cases ≡ true
    → name_of_case cases n ≡ some s
    → case_of_name cases s ≡ some n
unfolding name_of_case case_of_name
case_of_name-name_of_case [] n s h e = cc
case_of_name-name_of_case ((m, u) ∷ cases) n s h e =
    ground
      (arith, eq_iff u s, name_of_case-is_fresh u cases n s, case_of_name-name_of_case cases n s)

fundamental_type_lem :
    (f : FundamentalType) {y : Yaml}
    → emit_fundamental_type f ≡ some y
    → read_fundamental_type y ≡ some f
unfolding emit_fundamental_type read_fundamental_type read_encoding required optional find_key
fundamental_type_lem f h =
    let (s, e, k) = >>=-eq-some (name_of_case encodings f.encoding) _ h in
    subst (λ y. read_fundamental_type y ≡ some f) (some-injective _ _ k)
      (rw (case_of_name-name_of_case encodings f.encoding s refl e) refl)

pub fundamental_lem :
    (f : FundamentalType) (q : Qualification) {y : Yaml}
    → emit_fundamental f q ≡ some y
    → read_fundamental y ≡ some (qualified_fundamental f q)
unfolding emit_fundamental read_fundamental required find_key
fundamental_lem f q h =
    let (t, e, k) = >>=-eq-some (emit_fundamental_type f) _ h in
    subst (λ y. read_fundamental y ≡ some (qualified_fundamental f q)) (some-injective _ _ k)
      (rw (fundamental_type_lem f e) (
        rw
          (read_qualtype_fields_lem (entry "Fundamental" t (qualtype_fields q)) q (record {
            array_key = refl;
            qualifiers_key = refl;
            typedef_key = refl;
            vector_key = refl;
            vector_size_key = refl;
            forward_decl_key = refl;
            recurring_key = refl;
          }))
          refl))

read_tag_lem : (t : CompoundTag) → read_tag (text (tag_name t)) ≡ some t
unfolding read_tag tag_name
read_tag_lem unknown_tag = refl
read_tag_lem struct_tag = refl
read_tag_lem class_tag = refl
read_tag_lem union_tag = refl
read_tag_lem enum_tag = refl
read_tag_lem enum_class_tag = refl

-- An optional sequence, which a reader of its items reads
pub optional-sequence {ℓ} :
    {A : Type ℓ} (read : Yaml → Option QualifiedType) (k : String) (initial a : A)
    (reads : Items → Option A) (is : Items) (es : Entries)
    → reads no_items ≡ some initial
    → reads is ≡ some a
    → find_key k es ≡ (if not (is_empty_items is) then some (sequence is) else none)
    → optional k initial (read_sequence read reads) es ≡ some a
optional-sequence read k initial a reads no_items es z h e =
    optional-if k initial a (read_sequence read reads) es false {y = sequence no_items} e (λ c. cc)
      (λ c. some-injective initial a (sym z ∙ h))
optional-sequence read k initial a reads (item y is) es z h e =
    optional-if k initial a (read_sequence read reads) es true e (λ c. h) (λ c. cc)

pub required-some {ℓ} :
    {A : Type ℓ} (k : String) (read : Yaml → Option A) (es : Entries) (y : Yaml) (a : A)
    → find_key k es ≡ some y
    → read y ≡ some a
    → required k read es ≡ some a
unfolding required
required-some k read es y a e h = rw e h

pub compound_type_lem :
    (read : Yaml → Option QualifiedType) (h : CompoundHead) (bs : Bases) (ms ss : Members)
    (b m s : Items)
    → read_bases read b ≡ some bs
    → read_members read m ≡ some ms
    → read_members read s ≡ some ss
    → read_compound_type read (mapping (compound_fields h b m s)) ≡ some (compound_type h bs ms ss)
unfolding read_compound_type required compound_fields find_key read_bases read_members
compound_type_lem read h bs ms ss b m s eb em es =
    let fs = compound_fields h b m s in
    rw (optional-text "Identifier" h.identifier fs (simp find_key-put)) (
      rw
        (required-some "Type" read_tag fs (text (tag_name h.type)) h.type (simp find_key-put)
          (read_tag_lem h.type))
        (rw
          (required-some "Extent" read_number fs (number h.extent) h.extent (simp find_key-put)
            refl)
          (rw
            (optional-items_of "Sizes" number read_number fs (λ n. refl) h.sizes
              (simp find_key-put))
            (rw
              (optional-items_of "Offsets" number read_number fs (λ n. refl) h.offsets
                (simp find_key-put))
              (rw
                (optional-sequence read "Base" no_bases bs (read_bases read) b fs refl eb
                  (simp find_key-put))
                (rw
                  (optional-sequence read "Members" no_members ms (read_members read) m fs refl em
                    (simp find_key-put))
                  (rw
                    (optional-sequence read "Static_Members" no_members ss (read_members read) s fs
                      refl es (simp find_key-put))
                    refl)))))))
