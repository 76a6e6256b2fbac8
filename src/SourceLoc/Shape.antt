-- ===== src/SourceLoc/Shape.antt =====
-- The order of the dimensions of an array, as reset_shape_qualifier of lib/type/SourceLocType.cpp sorts
-- them.
use llvm_dimeta.QualifiedType.{
  QualifiedType, qualified_compound, qualified_fundamental, qualification,
}
use llvm_dimeta.Base.{
  ltb, ◌==◌, if◌then◌else◌, ltb→lt, if_intro, if_split, copy_if, All, All-map, ℕ, ◌^◌, ◌≤◌, ◌<◌,
  ◌≡◌, refl, sym, ap, ◌∙◌, true, false, List, [], ◌∷◌, map, arith,
}
use llvm_dimeta.Dataflow.Fortran.{is_non_negative, IndexDim}
use llvm_dimeta.SourceLoc.{shape_less, insert, stable_sort, add_shape, reset_shape_qualifier}

-- The number that the comparison compares: all negative indices count as 2^63.
abbrev pub key : IndexDim → ℕ
key d = if is_non_negative d.position then d.position else 2 ^ 63

shape_less-key : (x y : IndexDim) → shape_less x y ≡ ltb (key x) (key y)
unfolding shape_less
shape_less-key x y = ground arith

before : (x y : IndexDim) → shape_less x y ≡ true → key x < key y
before x y h = ltb→lt (key x) (key y) (sym (shape_less-key x y) ∙ h)

not_before : (x y : IndexDim) → shape_less x y ≡ false → key y ≤ key x
not_before x y h =
    let h' : ltb (key x) (key y) ≡ false = sym (shape_less-key x y) ∙ h in ground arith

abbrev pub IsSorted : List IndexDim → Type 0
IsSorted [] = Unit
IsSorted (d ∷ ds) = All (λ e. key d ≤ key e) ds × IsSorted ds

insert-All :
    (P : IndexDim → Type 0) (d : IndexDim) (es : List IndexDim)
    → P d
    → All P es
    → All P (insert d es)
unfolding insert
insert-All P d [] p k = (p, tt)
insert-All P d (e ∷ es) p (q, k) =
    if_intro (All P) (shape_less e d) (q, insert-All P d es p k) (p, (q, k))

insert-IsSorted : (d : IndexDim) (es : List IndexDim) → IsSorted es → IsSorted (insert d es)
unfolding insert
insert-IsSorted d [] k = (tt, tt)
insert-IsSorted d (e ∷ es) (a, k) =
    if_split IsSorted (shape_less e d)
      (λ less. (
        insert-All (λ x. key e ≤ key x) d es (omega (arith, before e d less)) a,
        insert-IsSorted d es k,
      ))
      (λ other. (
        (
          not_before e d other,
          All-map (λ x. key e ≤ key x) (λ x. key d ≤ key x)
              (λ x h. omega (arith, not_before e d other, h)) es a,
        ),
        (a, k),
      ))

pub stable_sort-IsSorted : (ds : List IndexDim) → IsSorted (stable_sort ds)
unfolding stable_sort
stable_sort-IsSorted [] = tt
stable_sort-IsSorted (d ∷ ds) = insert-IsSorted d (stable_sort ds) (stable_sort-IsSorted ds)

-- The dimensions with one key, in order
abbrev pub with_key : ℕ → List IndexDim → List IndexDim
with_key k ds = copy_if (λ d. key d == k) ds

insert-with_key :
    (k : ℕ) (d : IndexDim) (es : List IndexDim) → with_key k (insert d es) ≡ with_key k (d ∷ es)
unfolding insert
insert-with_key k d [] = refl
insert-with_key k d (e ∷ es) =
    if_split (λ r. with_key k r ≡ with_key k (d ∷ e ∷ es)) (shape_less e d)
      (λ less. ground (arith, before e d less, insert-with_key k d es)) (λ other. refl)

pub stable_sort-with_key :
    (k : ℕ) (ds : List IndexDim) → with_key k (stable_sort ds) ≡ with_key k ds
unfolding stable_sort
stable_sort-with_key k [] = refl
stable_sort-with_key k (d ∷ ds) =
    insert-with_key k d (stable_sort ds)
    ∙ ap (λ r. if key d == k then d ∷ r else r) (stable_sort-with_key k ds)

-- The shape that is set is that of the dimensions in the order of their indices, those with a negative
-- index last; dimensions with the same index, and those with a negative one, keep their order, and none
-- is lost or added. Nothing else of the type's qualification changes.
pub reset_shape_qualifier_lem :
    (shapes : List IndexDim) (t : QualifiedType)
    → (ordered : List IndexDim) × IsSorted ordered
      × ((k : ℕ) → with_key k ordered ≡ with_key k shapes)
      × (qualification (reset_shape_qualifier shapes t)
          ≡ record (qualification t) { array_size = map (λ d. d.dim) ordered })
unfolding reset_shape_qualifier add_shape
reset_shape_qualifier_lem shapes (qualified_compound c q) =
    (stable_sort shapes, stable_sort-IsSorted shapes, (λ k. stable_sort-with_key k shapes), refl)
reset_shape_qualifier_lem shapes (qualified_fundamental f q) =
    (stable_sort shapes, stable_sort-IsSorted shapes, (λ k. stable_sort-with_key k shapes), refl)
