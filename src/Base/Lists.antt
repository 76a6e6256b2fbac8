-- ===== src/Base/Lists.antt =====
-- Lists under native indices, and what the components share about them.
use Prim.Native.Nat.{ℕ, zero, suc, ◌+◌, ◌≤◌, ◌<◌}
use mathlib.Core.Path.{◌≡◌, refl, ap, sym, subst, ◌∙◌}
use mathlib.Core.Logic.{inl, inr}
use mathlib.Core.Bool.{Bool, true, false, ◌||◌}
use mathlib.Core.Option.{Option, none, some}
use mathlib.Core.List.{List, [], ◌∷◌, ◌++◌, append_assoc}
use native.Mathlib.Omega.{arith}
use llvm_dimeta.Base.Tests.{◌==◌, if◌then◌else◌, ==_iff, Bool-cases}

module _ {ℓ} {A : Type ℓ} where
  abbrev pub length : List A → ℕ
  length [] = 0
  length (x ∷ xs) = suc (length xs)

  abbrev pub get_elem? : List A → ℕ → Option A
  get_elem? [] i = none
  get_elem? (x ∷ xs) zero = some x
  get_elem? (x ∷ xs) (suc i) = get_elem? xs i

  abbrev pub get_or : List A → ℕ → A → A
  get_or [] i d = d
  get_or (x ∷ xs) zero d = x
  get_or (x ∷ xs) (suc i) d = get_or xs i d

  abbrev pub drop : ℕ → List A → List A
  drop zero xs = xs
  drop (suc n) [] = []
  drop (suc n) (x ∷ xs) = drop n xs

  -- The last entry, as back() reads it.
  abbrev pub back? : List A → Option A
  back? [] = none
  back? (x ∷ []) = some x
  back? (x ∷ y ∷ xs) = back? (y ∷ xs)

  abbrev pub reverse_onto : List A → List A → List A
  reverse_onto acc [] = acc
  reverse_onto acc (x ∷ xs) = reverse_onto (x ∷ acc) xs

  abbrev pub reverse : List A → List A
  reverse xs = reverse_onto [] xs

  -- llvm::count_if, llvm::any_of, llvm::copy_if
  abbrev pub count_if : (A → Bool) → List A → ℕ
  count_if p [] = 0
  count_if p (x ∷ xs) = if p x then suc (count_if p xs) else count_if p xs

  abbrev pub any_of : (A → Bool) → List A → Bool
  any_of p [] = false
  any_of p (x ∷ xs) = p x || any_of p xs

  abbrev pub copy_if : (A → Bool) → List A → List A
  copy_if p [] = []
  copy_if p (x ∷ xs) = if p x then x ∷ copy_if p xs else copy_if p xs

  abbrev pub All {κ} : (A → Type κ) → List A → Type κ
  All P [] = Unit
  All P (x ∷ xs) = P x × All P xs

  pub length-append : (xs ys : List A) → length (xs ++ ys) ≡ length xs + length ys
  length-append [] ys = omega arith
  length-append (x ∷ xs) ys = omega (arith, length-append xs ys)

  pub back?-append : (xs : List A) (x : A) → back? (xs ++ x ∷ []) ≡ some x
  back?-append [] x = refl
  back?-append (y ∷ []) x = refl
  back?-append (y ∷ z ∷ xs) x = back?-append (z ∷ xs) x

  pub reverse_onto-append : (acc xs : List A) → reverse_onto acc xs ≡ reverse xs ++ acc
  reverse_onto-append acc [] = refl
  reverse_onto-append acc (x ∷ xs) =
      reverse_onto-append (x ∷ acc) xs
      ∙ sym (append_assoc (reverse xs) (x ∷ []) acc)
      ∙ ap (λ q. q ++ acc) (sym (reverse_onto-append (x ∷ []) xs))

  pub All-append {κ} : (P : A → Type κ) (xs ys : List A) → All P xs → All P ys → All P (xs ++ ys)
  All-append P [] ys hx hy = hy
  All-append P (x ∷ xs) ys hx hy = (hx.0, All-append P xs ys hx.1 hy)

  pub All-split {κ} : (P : A → Type κ) (xs ys : List A) → All P (xs ++ ys) → All P xs × All P ys
  All-split P [] ys h = (tt, h)
  All-split P (x ∷ xs) ys h = let (hx, hy) = All-split P xs ys h.1 in ((h.0, hx), hy)

  pub All-map {κ ι} :
      (P : A → Type κ) (Q : A → Type ι)
      → ((x : A) → P x → Q x)
      → (xs : List A) → All P xs
      → All Q xs
  All-map P Q f [] h = tt
  All-map P Q f (x ∷ xs) h = (f x h.0, All-map P Q f xs h.1)

  pub All-zip {κ ι} :
      (P : A → Type κ) (Q : A → Type ι) (xs : List A)
      → All P xs
      → All Q xs
      → All (λ x. P x × Q x) xs
  All-zip P Q [] h k = tt
  All-zip P Q (x ∷ xs) h k = ((h.0, k.0), All-zip P Q xs h.1 k.1)

  pub any_of-append :
      (p : A → Bool) (xs ys : List A) → any_of p (xs ++ ys) ≡ (any_of p xs || any_of p ys)
  any_of-append p [] ys = refl
  any_of-append p (x ∷ xs) ys = ground (arith, any_of-append p xs ys)

  pub length-copy_if : (p : A → Bool) (xs : List A) → length (copy_if p xs) ≡ count_if p xs
  length-copy_if p [] = refl
  length-copy_if p (x ∷ xs) = ground (arith, length-copy_if p xs)

  pub copy_if-All : (p : A → Bool) (xs : List A) → All (λ x. p x ≡ true) (copy_if p xs)
  copy_if-All p [] = tt
  copy_if-All p (x ∷ xs) = ground (arith, copy_if-All p xs)

  pub get_elem?-some : (xs : List A) (i : ℕ) → i < length xs → (x : A) × (get_elem? xs i ≡ some x)
  get_elem?-some [] i h = elim h [ ]
  get_elem?-some (x ∷ xs) zero h = (x, refl)
  get_elem?-some (x ∷ xs) (suc i) h = get_elem?-some xs i (omega arith)

  pub get_elem?-none : (xs : List A) (i : ℕ) → length xs ≤ i → get_elem? xs i ≡ none
  get_elem?-none [] i h = refl
  get_elem?-none (x ∷ xs) zero h = absurd (omega arith)
  get_elem?-none (x ∷ xs) (suc i) h = get_elem?-none xs i (omega arith)

-- Sets of pointers: membership, and erasing.
abbrev pub contains : List ℕ → ℕ → Bool
contains [] a = false
contains (x ∷ xs) a = x == a || contains xs a

pub All-contains {κ} :
    (P : ℕ → Type κ) (xs : List ℕ) (a : ℕ) → All P xs → contains xs a ≡ true → P a
All-contains P [] a k h = cc
All-contains P (x ∷ xs) a k h = elim (Bool-cases (x == a)) [
  | inl same ↦ subst P ((==_iff x a).0 same) k.0
  | inr other ↦ All-contains P xs a k.1 (rw other at h)
]

abbrev pub erase : ℕ → List ℕ → List ℕ
erase a [] = []
erase a (x ∷ xs) = if x == a then erase a xs else x ∷ erase a xs

pub erase-absent : (a : ℕ) (xs : List ℕ) → contains xs a ≡ false → erase a xs ≡ xs
erase-absent a [] h = refl
erase-absent a (x ∷ xs) h = ground (arith, erase-absent a xs)

pub erase-cons_self : (a : ℕ) (xs : List ℕ) → erase a (a ∷ xs) ≡ erase a xs
erase-cons_self a xs = ground (arith, ==_iff a a)

-- The numbers below `n` that a set does not hold.
abbrev pub unseen : ℕ → List ℕ → ℕ
unseen zero xs = 0
unseen (suc n) xs = if contains xs n then unseen n xs else suc (unseen n xs)

unseen-cons_above : (n a : ℕ) (xs : List ℕ) → n ≤ a → unseen n (a ∷ xs) ≡ unseen n xs
unseen-cons_above zero a xs h = refl
unseen-cons_above (suc n) a xs h = ground (arith, unseen-cons_above n a xs)

pub unseen-cons :
    (n a : ℕ) (xs : List ℕ) → a < n → contains xs a ≡ false → suc (unseen n (a ∷ xs)) ≡ unseen n xs
unseen-cons zero a xs h e = absurd (omega arith)
unseen-cons (suc n) a xs h e =
    ground (arith, unseen-cons n a xs, unseen-cons_above n a xs, ==_iff a n)

pub unseen-cons_seen :
    (n a : ℕ) (xs : List ℕ) → contains xs a ≡ true → unseen n (a ∷ xs) ≡ unseen n xs
unseen-cons_seen zero a xs e = refl
unseen-cons_seen (suc n) a xs e = ground (arith, unseen-cons_seen n a xs, ==_iff a n)

pub unseen-nil : (n : ℕ) → unseen n [] ≡ n
unseen-nil zero = refl
unseen-nil (suc n) = ap suc (unseen-nil n)
