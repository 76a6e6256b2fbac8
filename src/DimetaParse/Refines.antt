-- ===== src/DimetaParse/Refines.antt =====
-- The handler in lib/type/DimetaParse.cpp builds with its stack what the recursive function builds.

use llvm_dimeta.Parser.Callbacks.{event_hooks}
use llvm_dimeta.Visitor.{start, traverse_node}
use llvm_dimeta.DimetaParse.Forest.{
  raise, raise_all, PlainTree, plain_leaf, plain_node, PlainForest, plain_then, Nested-raise_all,
}
use llvm_dimeta.Parser.Nesting.{Nested, parser-Nested}
use llvm_dimeta.Base.{
  Outcome, done, ◌>>=◌, Post, >>=_assoc, >>=-done, >>=_congr, >>=_frame, Post-map, ℕ, ◌≡◌, refl,
  sym, ap, ◌∙◌, none, some, List, [], ◌∷◌,
}
use llvm_dimeta.Metadata.{NodeId, Metadata}
use llvm_dimeta.Parser.{Event, make_composite, finalize_composite, new_visitor}
use llvm_dimeta.DimetaParse.Stack.{QualifiedCompound, DiTypeParser, new_parser}
use llvm_dimeta.DimetaParse.Handler.{handle, handle_all}
use llvm_dimeta.DimetaParse.Builder.{
  Tree, leaf, node, Forest, no_trees, then_tree, Site, new_compound, build, build_all, built_type,
}
use llvm_dimeta.DimetaParse.Steps.{
  stack_of, state_of, at_state, site, leaf_lem, open_lem, close_lem,
}

module _ (g : Metadata) where
  -- Handling the events of a tree, from a state
  mutual
    unfolding handle

    run : Tree → DiTypeParser → Outcome DiTypeParser
    run (leaf e) p = handle g e p
    run (node m ts) p = do
      q ← handle g (make_composite m) p
      r ← run_all ts q
      handle g (finalize_composite m) r

    run_all : Forest → DiTypeParser → Outcome DiTypeParser
    run_all no_trees p = done p
    run_all (then_tree ts t) p = do q ← run_all ts p; run t q

  mutual
    unfolding handle_all raise run

    raise-run :
        (t : Tree) (es : List Event) → handle_all g (raise t es) ≡ (handle_all g es >>= run t)
    raise-run (leaf e) es = refl
    raise-run (node m ts) es =
        ap (λ (x : Outcome DiTypeParser). x >>= handle g (finalize_composite m))
          (raise_all-run ts (make_composite m ∷ es)
            ∙ >>=_assoc (handle_all g es) (handle g (make_composite m)) (run_all ts))
        ∙ >>=_assoc (handle_all g es) (λ p. handle g (make_composite m) p >>= run_all ts)
            (handle g (finalize_composite m))
        ∙ >>=_congr (handle_all g es) _ _ λ p.
          >>=_assoc (handle g (make_composite m) p) (run_all ts) (handle g (finalize_composite m))

    raise_all-run :
        (ts : Forest) (es : List Event)
        → handle_all g (raise_all ts es) ≡ (handle_all g es >>= run_all ts)
    raise_all-run no_trees es = sym (>>=-done (handle_all g es))
    raise_all-run (then_tree ts t) es =
        raise-run t (raise_all ts es)
        ∙ ap (λ (x : Outcome DiTypeParser). x >>= run t) (raise_all-run ts es)
        ∙ >>=_assoc (handle_all g es) (run_all ts) (run t)

  mutual
    unfolding run build

    run-build :
        (t : Tree)
        → PlainTree t
        → (s : Site) (rest : List QualifiedCompound)
        → run t (state_of rest s) ≡ (build g t s >>= at_state rest)
    run-build (leaf e) (plain_leaf e' h) s rest = leaf_lem g e s rest h
    run-build (node m ts) (plain_node m' q) s rest =
        let outer = stack_of s.around rest in
        let close = handle g (finalize_composite m) in
        ap (λ (x : Outcome DiTypeParser). x >>= λ p. run_all ts p >>= close) (open_lem g m s rest)
        ∙ >>=_assoc (new_compound g m) _ _
        ∙ >>=_frame (new_compound g m) _ _ (at_state rest) λ c.
          ap (λ (x : Outcome DiTypeParser). x >>= close)
            (run_all-build_all ts q (site s.result (some c)) outer)
          ∙ >>=_assoc (build_all g ts (site s.result (some c))) (at_state outer) close
          ∙ >>=_frame (build_all g ts (site s.result (some c))) _ _ (at_state rest)
              λ inner. close_lem g m s inner.result inner.around rest

    run_all-build_all :
        (ts : Forest)
        → PlainForest ts
        → (s : Site) (rest : List QualifiedCompound)
        → run_all ts (state_of rest s) ≡ (build_all g ts s >>= at_state rest)
    run_all-build_all no_trees q s rest = refl
    run_all-build_all (then_tree ts t) (plain_then q p) s rest =
        ap (λ (x : Outcome DiTypeParser). x >>= run t) (run_all-build_all ts q s rest)
        ∙ >>=_assoc (build_all g ts s) (at_state rest) (run t)
        ∙ >>=_frame (build_all g ts s) _ _ (at_state rest) λ r. run-build t p r rest

  -- The events of a traversal are those of a forest, whose leaves open and close nothing, and the type that the handler makes of them is what
  -- the recursive function builds of the forest.
  abbrev pub BuiltAs : List Event → Type 0
  BuiltAs es =
      (ts : Forest) × PlainForest ts
      × (es ≡ raise_all ts [])
      × ((handle_all g es >>= λ p. done p.result) ≡ built_type g ts)

  Nested-BuiltAs : {es : List Event} → Nested es [] → BuiltAs es
  unfolding handle_all built_type
  Nested-BuiltAs {es} n =
      let (ts, plain_ts, e) = Nested-raise_all n in
      let result : Site = site new_parser.result none in
      (
        ts,
        plain_ts,
        e,
        ap (λ (l : List Event). handle_all g l >>= λ p. done p.result) e
            ∙ ap (λ (x : Outcome DiTypeParser). x >>= λ p. done p.result)
                (raise_all-run ts [] ∙ run_all-build_all ts plain_ts result [])
            ∙ >>=_assoc (build_all g ts result) (at_state []) (λ p. done p.result),
      )

  -- If the parser's traversal from a node returns, its events are those of a forest of types, and the
  -- handler comes to the same result as the recursive function that builds each type of the forest inside
  -- the one around it: the same type, or the same fault.
  pub parsed-BuiltAs :
      (fuel : ℕ) (n : NodeId)
      → Post
          (λ r. BuiltAs r.0.sub.events)
          (traverse_node (event_hooks g) g fuel n (start new_visitor))
  parsed-BuiltAs fuel n =
      Post-map (λ r h. Nested-BuiltAs h.0)
        (traverse_node (event_hooks g) g fuel n (start new_visitor)) (parser-Nested g fuel n)
