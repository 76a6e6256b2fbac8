-- ===== src/Visitor/Frame.antt =====
-- What the callbacks and the scope exits of lib/type/DIVisitor.h change of the visitor's own state.
use llvm_dimeta.Base.{
  Outcome, done, ◌>>=◌, Post, >>=-Post, Post-map, suc, ◌≡◌, refl, ◌∙◌, Bool, arith,
}
use llvm_dimeta.Metadata.{NodeId, Metadata}
use llvm_dimeta.Visitor.{
  Kind, Hooks, Walk, enter_hook, visit_hook, leave_hook, pop_var, pop_derived, pop_composite,
}

-- Each callback keeps the property `P` of the subclass's state.
pub record HooksKeep {S : Type 0} (h : Hooks S) (P : S → Type 0) : Type 0 where
  pub enter : (k : Kind) (n : NodeId) (s : S) → P s → Post P (h.enter k n s)
  pub visit : (k : Kind) (n : NodeId) (s : S) → P s → Post (λ r. P r.0) (h.visit k n s)
  pub leave : (k : Kind) (n : NodeId) (s : S) → P s → Post P (h.leave k n s)
  pub visit_type : (n : NodeId) (s : S) → P s → Post (λ r. P r.0) (h.visit_type n s)

pub record Keeps {S : Type 0} (P : S → Type 0) (w w' : Walk S) : Type 0 where
  pub sub : P w'.sub
  pub visited : w'.visited ≡ w.visited
  pub depth_composite : w'.depth_composite ≡ w.depth_composite
  pub depth_derived : w'.depth_derived ≡ w.depth_derived
  pub depth_var : w'.depth_var ≡ w.depth_var

-- The same of a family of properties: what visitX may change, the matching leaveX changes back. Between
-- them the property has another index, which visitX chooses.
pub record HooksFrame {S I : Type 0} (h : Hooks S) (P : I → S → Type 0) : Type 0 where
  pub enter : (i : I) (k : Kind) (n : NodeId) (s : S) → P i s → Post (P i) (h.enter k n s)
  pub visit :
      (i : I) (k : Kind) (n : NodeId) (s : S)
      → P i s
      → Post
          (λ r. (j : I) × P j r.0 × ((s' : S) → P j s' → Post (P i) (h.leave k n s')))
          (h.visit k n s)
  pub visit_type : (i : I) (n : NodeId) (s : S) → P i s → Post (λ r. P i r.0) (h.visit_type n s)

pub HooksKeep-HooksFrame :
    {S : Type 0} (h : Hooks S) (P : S → Type 0) → HooksKeep h P → HooksFrame h (λ (u : Unit {0}). P)
HooksKeep-HooksFrame h P keep = record {
  enter = λ u. keep.enter;
  visit = λ u k n s p.
      Post-map (λ r q. (tt, q, λ s' p'. keep.leave k n s' p')) (h.visit k n s) (keep.visit k n s p);
  visit_type = λ u. keep.visit_type;
}

-- The same of a call that also says whether to go on, and of a function of the visitor
abbrev pub KeepsBoth : {S : Type 0} → (S → Type 0) → Walk S → Walk S × Bool → Type 0
KeepsBoth P w r = Keeps P w r.0

abbrev pub Balanced :
    {S I : Type 0} → (I → S → Type 0) → (Walk S → Outcome (Walk S × Bool)) → Type 0
Balanced {S} {I} P f = (i : I) (w : Walk S) → P i w.sub → Post (KeepsBoth (P i) w) (f w)

module _ {S I : Type 0} (h : Hooks S) (g : Metadata) (P : I → S → Type 0)
    (keep : HooksFrame h P) where
  pub Keeps-trans : {i j : I} {u v w : Walk S} → Keeps (P i) u v → Keeps (P j) v w → Keeps (P j) u w
  Keeps-trans a b = record {
    sub = b.sub;
    visited = b.visited ∙ a.visited;
    depth_composite = b.depth_composite ∙ a.depth_composite;
    depth_derived = b.depth_derived ∙ a.depth_derived;
    depth_var = b.depth_var ∙ a.depth_var;
  }

  pub with_sub : (i : I) (w : Walk S) (s : S) → P i s → Keeps (P i) w (record w { sub = s })
  with_sub i w s p = record {
    sub = p;
    visited = refl;
    depth_composite = refl;
    depth_derived = refl;
    depth_var = refl;
  }

  pub stay : (i : I) (w : Walk S) → P i w.sub → Keeps (P i) w w
  stay i w p = with_sub i w w.sub p

  -- What holds from `v` on holds from an earlier `u` on.
  pub weaken :
      (i : I) (u v : Walk S) (m : Outcome (Walk S))
      → Keeps (P i) u v
      → Post (Keeps (P i) v) m
      → Post (Keeps (P i) u) m
  weaken i u v m k q = Post-map (λ w l. Keeps-trans k l) m q

  pub along :
      (i : I) (u v : Walk S) (m : Outcome (Walk S × Bool))
      → Keeps (P i) u v
      → Post (KeepsBoth (P i) v) m
      → Post (KeepsBoth (P i) u) m
  along i u v m k q = Post-map (λ w l. Keeps-trans k l) m q

  pub enter_hook-Keeps :
      (i : I) (k : Kind) (n : NodeId) (w : Walk S)
      → P i w.sub
      → Post (Keeps (P i) w) (enter_hook h g k n w)
  unfolding enter_hook
  enter_hook-Keeps i k n w p =
      >>=-Post (P i) (Keeps (P i) w) (h.enter k n w.sub) _ (keep.enter i k n w.sub p)
        (λ s q. with_sub i w s q)

  -- After visitX: the index that it chose, and what leaveX does there
  abbrev pub Entered : I → Kind → NodeId → Walk S → Walk S × Bool → Type 0
  Entered i k n w r =
      (j : I) × Keeps (P j) w r.0 × ((s' : S) → P j s' → Post (P i) (h.leave k n s'))

  pub visit_hook-Entered :
      (i : I) (k : Kind) (n : NodeId) (w : Walk S)
      → P i w.sub
      → Post (Entered i k n w) (visit_hook h g k n w)
  unfolding visit_hook
  visit_hook-Entered i k n w p =
      >>=-Post (λ r. (j : I) × P j r.0 × ((s' : S) → P j s' → Post (P i) (h.leave k n s')))
        (Entered i k n w) (h.visit k n w.sub) _ (keep.visit i k n w.sub p)
        (λ r q. (q.0, with_sub q.0 w r.0 q.1, q.2))

  pub leave_hook-Keeps :
      (i : I) (k : Kind) (n : NodeId) (w : Walk S)
      → Post (P i) (h.leave k n w.sub)
      → Post (Keeps (P i) w) (leave_hook h g k n w)
  unfolding leave_hook
  leave_hook-Keeps i k n w p =
      >>=-Post (P i) (Keeps (P i) w) (h.leave k n w.sub) _ p (λ s q. with_sub i w s q)

  -- The frame that every traverse function has: enter, visit, go on below, leave.
  pub frame-Keeps :
      (i : I) (k : Kind) (n : NodeId) (below : Walk S × Bool → Outcome (Walk S × Bool))
      (u w : Walk S) (pop : Walk S → Outcome (Walk S))
      → P i w.sub
      → ((j : I) (r : Walk S × Bool) → P j r.0.sub → Post (KeepsBoth (P j) r.0) (below r))
      → ((v : Walk S) → Keeps (P i) w v → Post (Keeps (P i) u) (pop v))
      → Post (KeepsBoth (P i) u) (
          enter_hook h g k n w >>= λ w1. visit_hook h g k n w1 >>= λ r.
          below r >>= λ q. leave_hook h g k n q.0 >>= λ w2. pop w2 >>= λ w3. done (w3, q.1))
  frame-Keeps i k n below u w pop p b c =
      >>=-Post (Keeps (P i) w) (KeepsBoth (P i) u) (enter_hook h g k n w) _
        (enter_hook-Keeps i k n w p)
        λ w1 k1.
          >>=-Post (Entered i k n w1) (KeepsBoth (P i) u) (visit_hook h g k n w1) _
            (visit_hook-Entered i k n w1 k1.sub)
            λ r k2.
              let (j, k2', leaves) = k2 in
              >>=-Post (KeepsBoth (P j) r.0) (KeepsBoth (P i) u) (below r) _ (b j r k2'.sub) λ q k3.
                >>=-Post (Keeps (P i) q.0) (KeepsBoth (P i) u) (leave_hook h g k n q.0) _
                  (leave_hook-Keeps i k n q.0 (leaves q.0.sub k3.sub))
                  λ w2 k4.
                    >>=-Post (Keeps (P i) u) (KeepsBoth (P i) u) (pop w2) _
                      (c w2 (Keeps-trans k1 (Keeps-trans k2' (Keeps-trans k3 k4)))) λ w3 k5. k5

  pub pop_var-Keeps :
      (i : I) (w v : Walk S)
      → Keeps (P i) (record w { depth_var = suc w.depth_var }) v
      → Post (Keeps (P i) w) (pop_var h g v)
  unfolding pop_var
  pop_var-Keeps i w v k = ground arith

  pub pop_derived-Keeps :
      (i : I) (w v : Walk S)
      → Keeps (P i) (record w { depth_derived = suc w.depth_derived }) v
      → Post (Keeps (P i) w) (pop_derived h g v)
  unfolding pop_derived
  pop_derived-Keeps i w v k = ground arith

  pub pop_composite-Keeps :
      (i : I) (w v : Walk S)
      → Keeps (P i) (record w { depth_composite = suc w.depth_composite }) v
      → Post (Keeps (P i) w) (pop_composite h g v)
  unfolding pop_composite
  pop_composite-Keeps i w v k = ground arith
