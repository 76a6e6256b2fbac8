-- ===== src/DimetaIo/Fields.antt =====
-- What lib/type/DimetaIO.cpp reads of a mapping that it wrote: each key has what was put there, or is
-- missing where there was nothing to write.
use llvm_dimeta.DimetaIo.Read.{read_qualtype_fields}
use llvm_dimeta.DimetaIo.Names.{qualifier_name, read_qualifier}
use llvm_dimeta.Base.{
  ◌==◌, if◌then◌else◌, ℕ, String, ◌≡◌, refl, sym, ap, ◌∙◌, Bool, true, false, not, ◌&&◌, Option,
  none, some, List, [], ◌∷◌, arith, str_eq, eq_iff,
}
use llvm_dimeta.QualifiedType.{
  Qualifier, no_qualifier, pointer, reference, const, ptr_to_member, array, vector, static,
  Qualification,
}
use llvm_dimeta.DimetaIo.{
  Yaml, text, number, boolean, sequence, Entries, put, find_key, optional, read_text, read_number,
  read_boolean, is_empty_list, items_of, read_items, read_list,
}
use llvm_dimeta.DimetaIo.Emit.{qualtype_fields}

pub find_key-put :
    (k j : String) (c : Bool) (y : Yaml) (es : Entries)
    → find_key k (put c j y es) ≡ (if str_eq j k && c then some y else find_key k es)
unfolding find_key put
find_key-put k j true y es = ground arith
find_key-put k j false y es = ground arith

pub optional-if {ℓ} :
    {A : Type ℓ} (k : String) (initial a : A) (read : Yaml → Option A) (es : Entries) (c : Bool)
    {y : Yaml}
    → find_key k es ≡ (if c then some y else none)
    → (c ≡ true → read y ≡ some a)
    → (c ≡ false → initial ≡ a)
    → optional k initial read es ≡ some a
unfolding optional
optional-if k initial a read es true h written left = rw (h, optional) (written refl)
optional-if k initial a read es false h written left = rw (h, optional) (ap some (left refl))

read_items-items_of {ℓ} :
    {A : Type ℓ} (write : A → Yaml) (read : Yaml → Option A)
    → ((a : A) → read (write a) ≡ some a)
    → (xs : List A) → read_items read (items_of write xs) ≡ some xs
unfolding read_items items_of
read_items-items_of write read h [] = refl
read_items-items_of write read h (x ∷ xs) = rw (h x) (rw (read_items-items_of write read h xs) refl)

empty_list {ℓ} : {A : Type ℓ} (xs : List A) → not (is_empty_list xs) ≡ false → [] ≡ xs
empty_list [] c = refl
empty_list (x ∷ xs) c = cc

-- An optional sequence of scalars
pub optional-items_of {ℓ} :
    {A : Type ℓ} (k : String) (write : A → Yaml) (read : Yaml → Option A) (es : Entries)
    → ((a : A) → read (write a) ≡ some a)
    → (xs : List A)
    → find_key k es ≡ (if not (is_empty_list xs) then some (sequence (items_of write xs)) else none)
    → optional k [] (read_list read) es ≡ some xs
unfolding read_list
optional-items_of k write read es h xs e =
    optional-if k [] xs (read_list read) es (not (is_empty_list xs)) e
      (λ c. read_items-items_of write read h xs) (empty_list xs)

pub optional-text :
    (k : String) (s : String) (es : Entries)
    → find_key k es ≡ (if not (str_eq s "") then some (text s) else none)
    → optional k "" read_text es ≡ some s
optional-text k s es e =
    optional-if k "" s read_text es (not (str_eq s "")) e (λ c. refl)
      (λ c. sym ((eq_iff s "").0 (ground arith)))

pub optional-number :
    (k : String) (n : ℕ) (es : Entries)
    → find_key k es ≡ (if not (n == 0) then some (number n) else none)
    → optional k 0 read_number es ≡ some n
optional-number k n es e =
    optional-if k 0 n read_number es (not (n == 0)) e (λ c. refl) (λ c. ground arith)

pub optional-boolean :
    (k : String) (b : Bool) (es : Entries)
    → find_key k es ≡ (if b then some (boolean b) else none)
    → optional k false read_boolean es ≡ some b
optional-boolean k b es e = optional-if k false b read_boolean es b e (λ c. refl) (λ c. sym c)

read_qualifier_lem : (k : Qualifier) → read_qualifier (text (qualifier_name k)) ≡ some k
unfolding read_qualifier qualifier_name
read_qualifier_lem no_qualifier = refl
read_qualifier_lem pointer = refl
read_qualifier_lem reference = refl
read_qualifier_lem const = refl
read_qualifier_lem ptr_to_member = refl
read_qualifier_lem array = refl
read_qualifier_lem vector = refl
read_qualifier_lem static = refl

-- The keys of map_qualtype_fields have in `es` what was written for `q`.
pub record Written (es : Entries) (q : Qualification) : Type 0 where
  pub array_key : find_key "Array" es ≡ find_key "Array" (qualtype_fields q)
  pub qualifiers_key : find_key "Qualifiers" es ≡ find_key "Qualifiers" (qualtype_fields q)
  pub typedef_key : find_key "Typedef" es ≡ find_key "Typedef" (qualtype_fields q)
  pub vector_key : find_key "Vector" es ≡ find_key "Vector" (qualtype_fields q)
  pub vector_size_key : find_key "VectorSize" es ≡ find_key "VectorSize" (qualtype_fields q)
  pub forward_decl_key : find_key "ForwardDecl" es ≡ find_key "ForwardDecl" (qualtype_fields q)
  pub recurring_key : find_key "Recurring" es ≡ find_key "Recurring" (qualtype_fields q)

pub read_qualtype_fields_lem :
    (es : Entries) (q : Qualification) → Written es q → read_qualtype_fields es ≡ some q
unfolding read_qualtype_fields qualtype_fields find_key
read_qualtype_fields_lem es q w =
    rw
      (optional-items_of "Array" number read_number es (λ n. refl) q.array_size
        (w.array_key ∙ simp find_key-put))
      (rw
        (optional-items_of "Qualifiers" (λ k. text (qualifier_name k)) read_qualifier es
          read_qualifier_lem q.qual (w.qualifiers_key ∙ simp find_key-put))
        (rw (optional-text "Typedef" q.typedef_name es (w.typedef_key ∙ simp find_key-put)) (
          rw (optional-boolean "Vector" q.is_vector es (w.vector_key ∙ simp find_key-put)) (
            rw
              (optional-number "VectorSize" q.vector_size es
                (w.vector_size_key ∙ simp find_key-put))
              (rw
                (optional-boolean "ForwardDecl" q.is_forward_decl es
                  (w.forward_decl_key ∙ simp find_key-put))
                (rw
                  (optional-boolean "Recurring" q.is_recurring es
                    (w.recurring_key ∙ simp find_key-put))
                  refl))))))
