-- ===== src/Examples/Types.antt =====
-- The properties of the metadata traversal and of the type selection at the example program.
use llvm_dimeta.Gep.Peel.{Peels, find_non_derived_type_unless-Peels}
use llvm_dimeta.Gep.{find_non_derived_type_unless}
use llvm_dimeta.Visitor.Termination.{traverse_node-Finishes}
use llvm_dimeta.DiUtil.Desugar.{pointers, desugar-Desugars}
use llvm_dimeta.DiUtil.{is_pointer_like, if_composite, desugar}
use llvm_dimeta.Metadata.Chain.{Chain, IsBase}
use llvm_dimeta.Base.{
  get_or, All, done, Finishes, Post, ℕ, zero, suc, ◌≤◌, ◌<◌, ◌≡◌, ◌⊎◌, true, false, Option, some,
  List, [], ◌∷◌, arith,
}
use llvm_dimeta.Metadata.{NodeId, DerivedType}
use llvm_dimeta.Visitor.{Hooks, default_hooks, start, traverse_node}
use llvm_dimeta.Visitor.Frame.{HooksKeep, Keeps}
use llvm_dimeta.Visitor.Cost.{HooksFinish, refs, is_scope, IsFinite}
use llvm_dimeta.Visitor.Balance.{traverse_node-Keeps}
use llvm_dimeta.Examples.{graph}

-- Callbacks that count the visited nodes
abbrev counting : Hooks ℕ
counting = record (default_hooks ℕ) { visit = λ k n s. done (suc s, true) }

counting-Keep : HooksKeep counting (λ s. 1 ≤ s)
counting-Keep = record {
  enter = λ k n s p. p;
  visit = λ k n s p. omega arith;
  leave = λ k n s p. p;
  visit_type = λ n s p. p;
}

counting-Finish : HooksFinish counting
counting-Finish = record {
  enter = λ k n s. tt;
  visit = λ k n s. tt;
  leave = λ k n s. tt;
  visit_type = λ n s. tt;
}

traverse_node-Keeps_example :
    Post (λ r. Keeps (λ s. 1 ≤ s) (start 1) r.0) (traverse_node counting graph 31 6 (start 1))
traverse_node-Keeps_example =
    traverse_node-Keeps counting graph (λ s. 1 ≤ s) counting-Keep 31 6 (start 1) (omega arith)

-- Members lie above their base types, pointers above what they point to, but not structs above their
-- members.
abbrev pub rank : NodeId → ℕ
rank n = get_or (0 ∷ 0 ∷ 1 ∷ 1 ∷ 2 ∷ 1 ∷ 2 ∷ []) n 0

graph-closed : (n : NodeId) → n < 7 → All (λ m. m < 7) (refs (graph n))
graph-closed zero h = tt
graph-closed (suc zero) h = (omega arith, (omega arith, (omega arith, tt)))
graph-closed (suc (suc zero)) h = (omega arith, tt)
graph-closed (suc (suc (suc zero))) h = (omega arith, tt)
graph-closed (suc (suc (suc (suc zero)))) h = (omega arith, tt)
graph-closed (suc (suc (suc (suc (suc zero))))) h = (omega arith, tt)
graph-closed (suc (suc (suc (suc (suc (suc zero)))))) h = (omega arith, tt)
graph-closed (suc (suc (suc (suc (suc (suc (suc n))))))) h = absurd (omega arith)

graph-falls :
    (n : NodeId) → n < 7 → is_scope (graph n) ≡ false → All (λ m. rank m < rank n) (refs (graph n))
graph-falls zero h s = tt
graph-falls (suc zero) h s = cc
graph-falls (suc (suc zero)) h s = (omega arith, tt)
graph-falls (suc (suc (suc zero))) h s = (omega arith, tt)
graph-falls (suc (suc (suc (suc zero)))) h s = (omega arith, tt)
graph-falls (suc (suc (suc (suc (suc zero))))) h s = (omega arith, tt)
graph-falls (suc (suc (suc (suc (suc (suc zero)))))) h s = (omega arith, tt)
graph-falls (suc (suc (suc (suc (suc (suc (suc n))))))) h s = absurd (omega arith)

graph-bounded : (n : NodeId) → n < 7 → rank n ≤ 2
graph-bounded zero h = omega arith
graph-bounded (suc zero) h = omega arith
graph-bounded (suc (suc zero)) h = omega arith
graph-bounded (suc (suc (suc zero))) h = omega arith
graph-bounded (suc (suc (suc (suc zero)))) h = omega arith
graph-bounded (suc (suc (suc (suc (suc zero))))) h = omega arith
graph-bounded (suc (suc (suc (suc (suc (suc zero)))))) h = omega arith
graph-bounded (suc (suc (suc (suc (suc (suc (suc n))))))) h = absurd (omega arith)

pub graph-IsFinite : IsFinite graph 7 2 rank
graph-IsFinite = record { closed = graph-closed; falls = graph-falls; bounded = graph-bounded }

traverse_node-Finishes_example : Finishes (traverse_node counting graph 31 6 (start 0))
traverse_node-Finishes_example =
    traverse_node-Finishes counting graph counting-Finish 7 2 rank graph-IsFinite 31 6 0
      (omega arith) (omega arith)

desugar-Desugars_example :
    (passed : List DerivedType) × (end : Option NodeId) × Chain graph (some 4) passed end
    × (pointers passed ≤ 2)
    × (IsBase graph end ⊎ (1 < pointers passed))
    × (desugar graph 4 1 4 ≡ done (if_composite graph end))
desugar-Desugars_example = desugar-Desugars graph 4 1 4 tt

find_non_derived_type_unless-Peels_example :
    Peels graph is_pointer_like
      (some 4)
      (find_non_derived_type_unless graph 4 is_pointer_like (some 4))
find_non_derived_type_unless-Peels_example =
    find_non_derived_type_unless-Peels graph is_pointer_like 4 (some 4) tt
