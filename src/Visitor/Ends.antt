-- ===== src/Visitor/Ends.antt =====
-- The frame of the traverse functions of lib/type/DIVisitor.h ends if the callbacks end and what is
-- called in between does.
use llvm_dimeta.Base.{
  Outcome, done, ◌>>=◌, Finishes, >>=-Finishes, Post-done, Post-Unit, ◌≡◌, ◌∙◌, Bool, arith,
}
use llvm_dimeta.Metadata.{NodeId, Metadata}
use llvm_dimeta.Visitor.{
  Kind, Hooks, Walk, enter_hook, visit_hook, leave_hook, pop_var, pop_derived, pop_composite,
}
use llvm_dimeta.Visitor.Frame.{
  Keeps, HooksFrame, HooksKeep-HooksFrame, enter_hook-Keeps, Entered, visit_hook-Entered,
}
use llvm_dimeta.Visitor.Cost.{HooksFinish}

module _ {S : Type 0} (h : Hooks S) (g : Metadata) (ends : HooksFinish h) where
  pub keeps_nothing : HooksFrame h (λ (u : Unit {0}) s. Unit {0})
  keeps_nothing =
      HooksKeep-HooksFrame h (λ s. Unit {0})
        (record {
          enter = λ k n s p. Post-Unit (h.enter k n s);
          visit = λ k n s p. Post-Unit (h.visit k n s);
          leave = λ k n s p. Post-Unit (h.leave k n s);
          visit_type = λ n s p. Post-Unit (h.visit_type n s);
        })

  pub enter_hook-Finishes : (k : Kind) (n : NodeId) (w : Walk S) → Finishes (enter_hook h g k n w)
  unfolding enter_hook
  enter_hook-Finishes k n w = >>=-Finishes (h.enter k n w.sub) _ (ends.enter k n w.sub) (λ s e. tt)

  pub visit_hook-Finishes : (k : Kind) (n : NodeId) (w : Walk S) → Finishes (visit_hook h g k n w)
  unfolding visit_hook
  visit_hook-Finishes k n w = >>=-Finishes (h.visit k n w.sub) _ (ends.visit k n w.sub) (λ s e. tt)

  pub leave_hook-Finishes : (k : Kind) (n : NodeId) (w : Walk S) → Finishes (leave_hook h g k n w)
  unfolding leave_hook
  leave_hook-Finishes k n w = >>=-Finishes (h.leave k n w.sub) _ (ends.leave k n w.sub) (λ s e. tt)

  pub frame-Finishes :
      (k : Kind) (n : NodeId) (below : Walk S × Bool → Outcome (Walk S × Bool)) (w : Walk S)
      (pop : Walk S → Outcome (Walk S))
      → ((r : Walk S × Bool) → r.0.visited ≡ w.visited → Finishes (below r))
      → ((v : Walk S) → Finishes (pop v))
      → Finishes {A = Walk S × Bool} (
          enter_hook h g k n w >>= λ w1. visit_hook h g k n w1 >>= λ r.
          below r >>= λ q. leave_hook h g k n q.0 >>= λ w2. pop w2 >>= λ w3. done (w3, q.1))
  frame-Finishes k n below w pop b c =
      >>=-Finishes (enter_hook h g k n w) _ (enter_hook-Finishes k n w) λ w1 e1.
        >>=-Finishes (visit_hook h g k n w1) _ (visit_hook-Finishes k n w1) λ r e2.
          >>=-Finishes (below r) _ (b r (same w1 r e1 e2)) λ q e3.
            >>=-Finishes (leave_hook h g k n q.0) _ (leave_hook-Finishes k n q.0)
              λ w2 e4. >>=-Finishes (pop w2) _ (c w2) λ w3 e5. tt
    where
      same :
          (w1 : Walk S) (r : Walk S × Bool)
          → enter_hook h g k n w ≡ done w1
          → visit_hook h g k n w1 ≡ done r
          → r.0.visited ≡ w.visited
      same w1 r e1 e2 =
          (Post-done (Entered h g _ keeps_nothing tt k n w1) _
            (visit_hook-Entered h g _ keeps_nothing tt k n w1 tt) e2).1.visited
          ∙ (Post-done (Keeps (λ s. Unit) w) _ (enter_hook-Keeps h g _ keeps_nothing tt k n w tt)
              e1).visited

  pub pops_finish :
      (v : Walk S)
      → Finishes (pop_var h g v) × Finishes (pop_derived h g v) × Finishes (pop_composite h g v)
  unfolding pop_var pop_derived pop_composite
  pops_finish v = ground arith
