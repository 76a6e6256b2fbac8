-- ===== src/DimetaIo.antt =====
-- lib/type/DimetaIO.cpp: the mapping of the result data to YAML and back. A document is the tree that
-- llvm::yaml::Output writes and llvm::yaml::Input reads; an enumeration's value is the name that the
-- code gives it.
pub mod Names
pub mod Emit
pub mod Read
pub mod Fields
pub mod Compounds
pub mod RoundTrip
pub mod Documents
pub mod Written
use llvm_dimeta.Base.{
  if◌then◌else◌, ◌>>◌, ℕ, String, Bool, true, false, Option, none, some, List, [], ◌∷◌, str_eq,
}

mutual
  pub data Yaml : Type 0 where
    text : String → Yaml
    number : ℕ → Yaml
    boolean : Bool → Yaml
    sequence : Items → Yaml
    mapping : Entries → Yaml

  pub data Items : Type 0 where
    no_items : Items
    item : Yaml → Items → Items

  pub data Entries : Type 0 where
    no_entries : Entries
    entry : String → Yaml → Entries → Entries

-- none: an error of the reader, or a value that the writer has no name for
infixl 5 ◌>>=◌
abbrev pub ◌>>=◌ {ℓ κ} : {A : Type ℓ} {B : Type κ} → Option A → (A → Option B) → Option B
none >>= f = none
some a >>= f = f a

-- mapOptional while writing, where the condition is that there is something to write
unfoldable pub put : Bool → String → Yaml → Entries → Entries
put true k y es = entry k y es
put false k y es = es

unfoldable pub find_key : String → Entries → Option Yaml
find_key k no_entries = none
find_key k (entry j y es) = let rest = find_key k es in if str_eq j k then some y else rest

-- mapRequired and mapOptional while reading: without the key the latter leaves the value as it is, which
-- is that of a new object.
unfoldable pub required {ℓ} : {A : Type ℓ} → String → (Yaml → Option A) → Entries → Option A
unfolding find_key
required k read es = find_key k es >>= read

unfoldable pub optional {ℓ} : {A : Type ℓ} → String → A → (Yaml → Option A) → Entries → Option A
unfolding find_key
optional k initial read es = elim (find_key k es) [ none ↦ some initial | some y ↦ read y ]

abbrev pub read_text : Yaml → Option String
read_text (text s) = some s
read_text _ = none

abbrev pub read_number : Yaml → Option ℕ
read_number (number n) = some n
read_number _ = none

abbrev pub read_boolean : Yaml → Option Bool
read_boolean (boolean b) = some b
read_boolean _ = none

abbrev pub read_mapping : Yaml → Option Entries
read_mapping (mapping es) = some es
read_mapping _ = none

abbrev pub is_empty_list {ℓ} : {A : Type ℓ} → List A → Bool
is_empty_list [] = true
is_empty_list (x ∷ xs) = false

abbrev pub is_empty_items : Items → Bool
is_empty_items no_items = true
is_empty_items (item y is) = false

-- A sequence of scalars
unfoldable pub items_of {ℓ} : {A : Type ℓ} → (A → Yaml) → List A → Items
items_of write [] = no_items
items_of write (x ∷ xs) = item (write x) (items_of write xs)

unfoldable pub read_items {ℓ} : {A : Type ℓ} → (Yaml → Option A) → Items → Option (List A)
read_items read no_items = some []
read_items read (item y is) = do x ← read y; xs ← read_items read is; some (x ∷ xs)

unfoldable pub read_list {ℓ} : {A : Type ℓ} → (Yaml → Option A) → Yaml → Option (List A)
unfolding read_items
read_list read (sequence is) = read_items read is
read_list read _ = none
