-- ===== src/DimetaParse/Forest.antt =====
-- Events that nest are those of a forest.
use llvm_dimeta.Base.{◌≡◌, refl, ap, ◌∙◌, true, List, [], ◌∷◌}
use llvm_dimeta.Parser.{MetaData, Event, make_composite, finalize_composite}
use llvm_dimeta.Parser.Nesting.{is_plain, Nested, nothing, plain, opens, closes}
use llvm_dimeta.DimetaParse.Builder.{Tree, leaf, node, Forest, no_trees, then_tree}

-- The events of a tree after those of `es`, the last at the head
unfoldable mutual
  pub raise : Tree → List Event → List Event
  raise (leaf e) es = e ∷ es
  raise (node m ts) es = finalize_composite m ∷ raise_all ts (make_composite m ∷ es)

  pub raise_all : Forest → List Event → List Event
  raise_all no_trees es = es
  raise_all (then_tree ts t) es = raise t (raise_all ts es)

-- The leaves are events that open and close nothing.
mutual
  pub data PlainTree : Tree → Type 0 where
    plain_leaf : (e : Event) → is_plain e ≡ true → PlainTree (leaf e)
    plain_node : (m : MetaData) {ts : Forest} → PlainForest ts → PlainTree (node m ts)

  pub data PlainForest : Forest → Type 0 where
    plain_none : PlainForest no_trees
    plain_then :
        {ts : Forest} {t : Tree} → PlainForest ts → PlainTree t → PlainForest (then_tree ts t)

-- The events so far, by the composites that are open: what stands in each
data Zipper : List Event → List MetaData → Type 0 where
  bottom : (ts : Forest) {es : List Event} → PlainForest ts → es ≡ raise_all ts [] → Zipper es []
  level :
      (m : MetaData) {below : List Event} {ms : List MetaData} (ts : Forest) {es : List Event}
      → Zipper below ms
      → PlainForest ts
      → es ≡ raise_all ts (make_composite m ∷ below)
      → Zipper es (m ∷ ms)

add_tree :
    {es : List Event} {ms : List MetaData} (t : Tree) {more : List Event}
    → PlainTree t
    → more ≡ raise t es
    → Zipper es ms
    → Zipper more ms
unfolding raise
add_tree t p e (bottom ts q h) = bottom (then_tree ts t) (plain_then q p) (e ∙ ap (raise t) h)
add_tree t p e (level m ts z q h) = level m (then_tree ts t) z (plain_then q p) (e ∙ ap (raise t) h)

close_level :
    {es : List Event} {ms : List MetaData} (m : MetaData)
    → Zipper es (m ∷ ms)
    → Zipper (finalize_composite m ∷ es) ms
unfolding raise
close_level m (level _ ts z q h) =
    add_tree (node m ts) (plain_node m q) (ap (λ l. finalize_composite m ∷ l) h) z

Nested-Zipper : {es : List Event} {ms : List MetaData} → Nested es ms → Zipper es ms
unfolding raise
Nested-Zipper nothing = bottom no_trees plain_none refl
Nested-Zipper (plain e h n) = add_tree (leaf e) (plain_leaf e h) refl (Nested-Zipper n)
Nested-Zipper (opens m n) = level m no_trees (Nested-Zipper n) plain_none refl
Nested-Zipper (closes m n) = close_level m (Nested-Zipper n)

forest_of :
    {es : List Event} → Zipper es [] → (ts : Forest) × PlainForest ts × (es ≡ raise_all ts [])
forest_of (bottom ts q h) = (ts, q, h)

-- Events that nest and are closed are those of a forest.
pub Nested-raise_all :
    {es : List Event} → Nested es [] → (ts : Forest) × PlainForest ts × (es ≡ raise_all ts [])
Nested-raise_all n = forest_of (Nested-Zipper n)
