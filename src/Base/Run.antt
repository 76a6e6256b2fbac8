-- ===== src/Base/Run.antt =====
-- What a run of the C++ code can come to: a result, a fault, or more rounds than the fuel allows.
use mathlib.Core.Path.{◌≡◌, refl, subst}
use mathlib.Core.Option.{Option, none, some}
use mathlib.Core.Bool.{Bool, true, false}
use mathlib.Core.List.{List}
use Prim.Native.Nat.{ℕ}
use llvm_dimeta.Base.Lists.{get_elem?}

-- The faults: a null pointer is dereferenced, an assertion or a cast fails, an index is out of range.
pub data Fault : Type 0 where
  null_pointer failed_assertion out_of_bounds : Fault

pub data Outcome {ℓ} (A : Type ℓ) : Type ℓ where
  done : A → Outcome A
  fault : Fault → Outcome A
  out_of_fuel : Outcome A

infixl 5 ◌>>=◌ ◌>>◌
abbrev pub ◌>>=◌ {ℓ κ} : {A : Type ℓ} {B : Type κ} → Outcome A → (A → Outcome B) → Outcome B
done a >>= f = f a
fault e >>= f = fault e
out_of_fuel >>= f = out_of_fuel

abbrev pub ◌>>◌ {ℓ} : {B : Type ℓ} → Outcome (Unit {0}) → Outcome B → Outcome B
m >> k = m >>= λ _. k

-- Reading through a pointer, checking an assertion, indexing.
abbrev pub deref {ℓ} : {A : Type ℓ} → Option A → Outcome A
deref none = fault null_pointer
deref (some a) = done a

abbrev pub assert : Bool → Outcome (Unit {0})
assert true = done tt
assert false = fault failed_assertion

abbrev pub index {ℓ} : {A : Type ℓ} → List A → ℕ → Outcome A
index xs i = elim (get_elem? xs i) [ none ↦ fault out_of_bounds | some x ↦ done x ]

abbrev pub Finishes {ℓ} : {A : Type ℓ} → Outcome A → Type 0
Finishes (done a) = Unit
Finishes (fault e) = Unit
Finishes out_of_fuel = ⊥

pub done-injective {ℓ} : {A : Type ℓ} (a b : A) → done a ≡ done b → a ≡ b
done-injective a b e = cc

-- A bind that succeeds succeeded in both parts.
pub >>=-eq-done {ℓ κ} :
    {A : Type ℓ} {B : Type κ} (m : Outcome A) (f : A → Outcome B) {b : B}
    → (m >>= f) ≡ done b
    → (a : A) × (m ≡ done a) × (f a ≡ done b)
>>=-eq-done (done a) f h = (a, refl, h)
>>=-eq-done (fault e) f h = cc
>>=-eq-done out_of_fuel f h = cc

pub >>=-Finishes {ℓ κ} :
    {A : Type ℓ} {B : Type κ} (m : Outcome A) (f : A → Outcome B)
    → Finishes m
    → ((a : A) → m ≡ done a → Finishes (f a))
    → Finishes (m >>= f)
>>=-Finishes (done a) f h k = k a refl
>>=-Finishes (fault e) f h k = tt
>>=-Finishes out_of_fuel f h k = h

pub Finishes-assert {ℓ} :
    {A : Type ℓ} (b : Bool) (m : Outcome A) → Finishes m → Finishes (assert b >> m)
Finishes-assert true m h = h
Finishes-assert false m h = tt

-- A postcondition of what a run returns, if it returns.
abbrev pub Post {ℓ κ} : {A : Type ℓ} → (A → Type κ) → Outcome A → Type κ
Post P (done a) = P a
Post P (fault e) = Unit
Post P out_of_fuel = Unit

pub >>=-Post {ℓ κ ι} :
    {A : Type ℓ} {B : Type κ} (Q : A → Type ι) (P : B → Type ι) (m : Outcome A) (f : A → Outcome B)
    → Post Q m
    → ((a : A) → Q a → Post P (f a))
    → Post P (m >>= f)
>>=-Post Q P (done a) f q k = k a q
>>=-Post Q P (fault e) f q k = tt
>>=-Post Q P out_of_fuel f q k = tt

pub >>=_assoc {ℓ κ ι} :
    {A : Type ℓ} {B : Type κ} {C : Type ι} (m : Outcome A) (f : A → Outcome B) (w : B → Outcome C)
    → ((m >>= f) >>= w) ≡ (m >>= λ a. f a >>= w)
>>=_assoc (done a) f w = refl
>>=_assoc (fault e) f w = refl
>>=_assoc out_of_fuel f w = refl

pub >>=-done {ℓ} : {A : Type ℓ} (m : Outcome A) → (m >>= done) ≡ m
>>=-done (done a) = refl
>>=-done (fault e) = refl
>>=-done out_of_fuel = refl

pub >>=_congr {ℓ κ} :
    {A : Type ℓ} {B : Type κ} (m : Outcome A) (f g : A → Outcome B)
    → ((a : A) → f a ≡ g a)
    → (m >>= f) ≡ (m >>= g)
>>=_congr (done a) f g h = h a
>>=_congr (fault e) f g h = refl
>>=_congr out_of_fuel f g h = refl

-- A step that does the first part of another run, and then the same
pub >>=_frame {ℓ κ ι} :
    {A : Type ℓ} {B : Type κ} {C : Type ι} (m : Outcome A) (f : A → Outcome C) (g : A → Outcome B)
    (w : B → Outcome C)
    → ((a : A) → f a ≡ (g a >>= w))
    → (m >>= f) ≡ ((m >>= g) >>= w)
>>=_frame (done a) f g w h = h a
>>=_frame (fault e) f g w h = refl
>>=_frame out_of_fuel f g w h = refl

-- The postcondition comes from the second part alone, which may know what the first returned.
pub >>=-Post_second {ℓ κ ι} :
    {A : Type ℓ} {B : Type κ} (P : B → Type ι) (m : Outcome A) (f : A → Outcome B)
    → ((a : A) → Post P (f a))
    → Post P (m >>= f)
>>=-Post_second P (done a) f k = k a
>>=-Post_second P (fault e) f k = tt
>>=-Post_second P out_of_fuel f k = tt

pub >>=-Post_eq {ℓ κ ι} :
    {A : Type ℓ} {B : Type κ} (P : B → Type ι) (m : Outcome A) (f : A → Outcome B)
    → ((a : A) → m ≡ done a → Post P (f a))
    → Post P (m >>= f)
>>=-Post_eq P (done a) f k = k a refl
>>=-Post_eq P (fault e) f k = tt
>>=-Post_eq P out_of_fuel f k = tt

pub Post-done {ℓ κ} :
    {A : Type ℓ} (P : A → Type κ) (m : Outcome A) {a : A} → Post P m → m ≡ done a → P a
Post-done P m h e = subst (Post P) e h

pub Post-map {ℓ κ ι} :
    {A : Type ℓ} {P : A → Type κ} {Q : A → Type ι}
    → ((a : A) → P a → Q a)
    → (m : Outcome A) → Post P m
    → Post Q m
Post-map f (done a) h = f a h
Post-map f (fault e) h = tt
Post-map f out_of_fuel h = tt

pub Post-assert {ℓ κ} :
    {A : Type ℓ} (P : A → Type κ) (b : Bool) (m : Outcome A) → Post P m → Post P (assert b >> m)
Post-assert P true m h = h
Post-assert P false m h = tt

pub Post-intro {ℓ κ} :
    {A : Type ℓ} (P : A → Type κ) (m : Outcome A) → ((a : A) → m ≡ done a → P a) → Post P m
Post-intro P (done a) h = h a refl
Post-intro P (fault e) h = tt
Post-intro P out_of_fuel h = tt

pub Post-Unit {ℓ} : {A : Type ℓ} (m : Outcome A) → Post (λ a. Unit {0}) m
Post-Unit (done a) = tt
Post-Unit (fault e) = tt
Post-Unit out_of_fuel = tt
