-- ===== src/Visitor/Below.antt =====
-- What a traversal of lib/type/DIVisitor.h goes on to from a node: the types, the elements and the parts of
-- a composite. The recursion there is shallower, by the nodes not visited and the ranks.
use llvm_dimeta.Base.{
  ◌==◌, if_intro, All, All-split, All-map, All-zip, contains, unseen, unseen-cons, Outcome,
  Finishes, >>=-Finishes, Post, Post-done, ℕ, suc, ◌+◌, ◌*◌, ◌<◌, ◌≡◌, sym, subst, ◌∙◌, Bool, false,
  not, ◌&&◌, Option, none, some, List, [], ◌∷◌, ◌++◌, arith,
}
use llvm_dimeta.Metadata.{dw_tag_array_type, NodeId, CompositeType, Metadata}
use llvm_dimeta.Visitor.{Hooks, Walk, traverse_type, traverse_elements, traverse_parts}
use llvm_dimeta.Visitor.Frame.{Keeps, KeepsBoth, Balanced, stay}
use llvm_dimeta.Visitor.Cost.{HooksFinish, to_list, scope_pays, refs, is_scope, IsFinite}
use llvm_dimeta.Visitor.Ends.{keeps_nothing}
use llvm_dimeta.Visitor.Balance.{traverse_type-Balanced, traverse_elements-Keeps}

module _ (size top : ℕ) (rank : NodeId → ℕ) where
  -- The depth of recursion that a node needs under the given set of visited composites
  abbrev pub cost : NodeId → List NodeId → ℕ
  cost n v = unseen size v * suc (suc top) + rank n

  -- What a call may go on to from the set `v`
  abbrev pub IsCheap : ℕ → List NodeId → NodeId → Type 0
  IsCheap fuel v m = (m < size) × (cost m v < fuel)

  module _ (g : Metadata) (fin : IsFinite g size top rank) (fuel : ℕ) where
    pub IsCheap-falls :
        (n : NodeId) (v : List NodeId)
        → n < size
        → is_scope (g n) ≡ false
        → cost n v < suc fuel
        → All (IsCheap fuel v) (refs (g n))
    IsCheap-falls n v i e c =
        All-map _ (IsCheap fuel v) (λ m p. (p.0, omega (arith, p.1))) (refs (g n))
          (All-zip (λ m. m < size) (λ m. rank m < rank n) (refs (g n)) (fin.closed n i)
            (fin.falls n i e))

    pub IsCheap-scope :
        (n : NodeId) (v : List NodeId)
        → n < size
        → contains v n ≡ false
        → cost n v < suc fuel
        → All (IsCheap fuel (n ∷ v)) (refs (g n))
    IsCheap-scope n v i e c =
        let u = unseen-cons size n v i e in
        All-map (λ m. m < size) (IsCheap fuel (n ∷ v)) (λ m p. (p, cheaper m p u)) (refs (g n))
          (fin.closed n i)
      where
        cheaper :
            (m : NodeId)
            → m < size
            → suc (unseen size (n ∷ v)) ≡ unseen size v
            → cost m (n ∷ v) < fuel
        cheaper m p u =
            scope_pays (unseen size (n ∷ v)) (unseen size v) (rank m) (rank n) top fuel u
              (fin.bounded m p) c

-- From here on: calls `inv` that end on what is cheap.
module _ {S : Type 0} (h : Hooks S) (g : Metadata) (ends : HooksFinish h) (size top : ℕ)
    (rank : NodeId → ℕ) (inv : NodeId → Walk S → Outcome (Walk S × Bool)) (fuel : ℕ)
    (rec : (m : NodeId) → Balanced (λ (u : Unit {0}) s. Unit {0}) (inv m))
    (stops : (m : NodeId) (w : Walk S)
      → IsCheap size top rank fuel w.visited m
      → Finishes (inv m w)) where
  pub type-Finishes :
      (t : Option NodeId) (w : Walk S)
      → All (IsCheap size top rank fuel w.visited) (to_list t)
      → Finishes (traverse_type h g inv t w)
  unfolding traverse_type
  type-Finishes none w c = tt
  type-Finishes (some t) w c =
      >>=-Finishes (h.visit_type t w.sub) _ (ends.visit_type t w.sub)
        λ r e. if_intro Finishes r.1 (stops t (record w { sub = r.0 }) c.0) tt

  elements-Finishes :
      (es : List NodeId) (w : Walk S)
      → All (IsCheap size top rank fuel w.visited) es
      → Finishes (traverse_elements h g inv es w)
  unfolding traverse_elements
  elements-Finishes [] w c = tt
  elements-Finishes (m ∷ es) w c = >>=-Finishes (inv m w) _ (stops m w c.0) λ r e.
      elements-Finishes es r.0 (
        subst (λ v. All (IsCheap size top rank fuel v) es)
          (sym (Post-done (KeepsBoth (λ s. Unit) w) _ (rec m tt w tt) e).visited) c.1)

  pub parts-Finishes :
      (c : CompositeType) (w : Walk S)
      → All (IsCheap size top rank fuel w.visited) (to_list c.base_type ++ c.elements)
      → Finishes (traverse_parts h g inv c w)
  unfolding traverse_parts
  parts-Finishes c w cheap =
      >>=-Finishes _ _ (if_intro Finishes is_array (elements-Finishes c.elements w below) tt)
        λ w1 e1.
          let k1 =
            Post-done (Keeps (λ s. Unit) w) _
              (if_intro (Post (Keeps (λ s. Unit) w)) is_array
                (traverse_elements-Keeps h g _ (keeps_nothing h g ends) inv rec c.elements tt w tt)
                (stay h g _ (keeps_nothing h g ends) tt w tt))
              e1 in
          >>=-Finishes (traverse_type h g inv c.base_type w1) _
            (type-Finishes c.base_type w1 (at _ w1 k1.visited base))
            λ q e2.
              let k2 =
                Post-done (KeepsBoth (λ s. Unit) w1) _
                  (traverse_type-Balanced h g _ (keeps_nothing h g ends) inv rec c.base_type tt w1
                    tt)
                  e2 in
              >>=-Finishes _ _
                (if_intro Finishes (q.1 && not is_array)
                  (elements-Finishes c.elements q.0 (at _ q.0 (k2.visited ∙ k1.visited) below)) tt)
                λ w2 e3. tt
    where
      is_array : Bool
      is_array = c.tag == dw_tag_array_type

      base : All (IsCheap size top rank fuel w.visited) (to_list c.base_type)
      base =
          (All-split (IsCheap size top rank fuel w.visited) (to_list c.base_type) c.elements
            cheap).0

      below : All (IsCheap size top rank fuel w.visited) c.elements
      below =
          (All-split (IsCheap size top rank fuel w.visited) (to_list c.base_type) c.elements
            cheap).1

      at :
          (es : List NodeId) (v : Walk S)
          → v.visited ≡ w.visited
          → All (IsCheap size top rank fuel w.visited) es
          → All (IsCheap size top rank fuel v.visited) es
      at es v e = subst (λ u. All (IsCheap size top rank fuel u) es) (sym e)
