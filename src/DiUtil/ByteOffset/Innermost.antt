-- ===== src/DiUtil/ByteOffset/Innermost.antt =====
-- The member that `resolve_byte_offset_to_member_of` of lib/type/DIUtil.cpp finds in nested structs.
use llvm_dimeta.Base.{
  ◌==◌, contains, All, Outcome, done, ◌>>=◌, ℕ, zero, suc, ◌+◌, ◌*◌, ◌^◌, ◌≤◌, ◌<◌, ◌≡◌, refl, sym,
  ap, subst, ◌∙◌, Bool, true, false, ◌||◌, none, some, List, [], ◌∷◌, ◌++◌, arith,
}
use llvm_dimeta.Metadata.{
  dw_tag_array_type, NodeId, DerivedType, CompositeType, BasicType, basic, composite, Metadata,
}
use llvm_dimeta.DiUtil.{is_pointer_like, is_array}
use llvm_dimeta.Visitor.{Walk, start, traverse_elements, dispatch, invoke_if_any}
use llvm_dimeta.DiUtil.ByteOffset.{
  StructMember, Destructure, visit_member, destructure_hooks, new_destructure,
  resolve_byte_offset_to_member_of,
}
use llvm_dimeta.DiUtil.ByteOffset.Steps.{
  begin, derived_run, derived_stop, basic_run, composite_run, inside, before_run, behind_run,
  IsBefore, IsBehind, IsHolder,
}

module _ (g : Metadata) (byte : ℕ) where
  -- The member `e` of the composite, with base type `b`, holds the byte; its siblings are of basic type.
  pub record IsMember (c : CompositeType) (base : ℕ) (e b : NodeId) (d : DerivedType) : Type 0 where
    pub before : List NodeId
    pub behind : List NodeId
    pub elements : c.elements ≡ before ++ e ∷ behind
    pub all_before : All (IsBefore g byte base) before
    pub all_behind : All (IsBehind g byte base) behind
    pub holder : IsHolder g byte base e b d
    pub underived : c.base_type ≡ none
    pub no_array : (c.tag == dw_tag_array_type) ≡ false

  -- From the composite `n` at `base` nested members that hold the byte lead to one that holds it and is
  -- of basic type, a pointer or an array. `path` are the composites around, and none recurs.
  pub data Innermost : ℕ → List NodeId → NodeId → ℕ → StructMember → Type 0 where
    simple :
        {depth : ℕ} {path : List NodeId} {n : NodeId} {base : ℕ} (c : CompositeType) (e b : NodeId)
        (d : DerivedType) (t : BasicType)
        → g n ≡ composite c
        → contains path n ≡ false
        → IsMember c base e b d
        → g b ≡ basic t
        → Innermost depth path n base (record { member = some e; type_of_member = some b })
    pointer :
        {depth : ℕ} {path : List NodeId} {n : NodeId} {base : ℕ} (c : CompositeType) (e b : NodeId)
        (d : DerivedType)
        → g n ≡ composite c
        → contains path n ≡ false
        → IsMember c base e b d
        → (is_pointer_like (g b) || is_array (g b)) ≡ true
        → Innermost depth path n base (record { member = some e; type_of_member = some b })
    nested :
        {depth : ℕ} {path : List NodeId} {n : NodeId} {base : ℕ} {m : StructMember}
        (c inner : CompositeType) (e b : NodeId) (d : DerivedType)
        → g n ≡ composite c
        → contains path n ≡ false
        → IsMember c base e b d
        → g b ≡ composite inner
        → is_array (g b) ≡ false
        → Innermost depth (n ∷ path) b (begin base d) m
        → Innermost (suc depth) path n base m

  -- The state of the visitor when it is done with what holds the byte
  record Found (base : ℕ) (m : StructMember) (s : Destructure) : Type 0 where
    candidate : s.outermost_candidate ≡ some m
    at_byte : s.byte_index ≡ byte
    from_base : base ≤ s.offset_base
    to_byte : s.offset_base ≤ byte

  -- What the visitor starts with at `base`
  record Ready (base : ℕ) (s : Destructure) : Type 0 where
    at_byte : s.byte_index ≡ byte
    at_base : s.offset_base ≡ base
    goes_on : s.terminate ≡ false

  -- What a run from `n` returns: the walk is as it was, but for the visitor's state.
  abbrev Runs : ℕ → NodeId → Walk Destructure → ℕ → StructMember → Type 0
  Runs fuel n w base m =
      (s : Destructure) × (q : Bool) × Found base m s
      × (invoke_if_any (destructure_hooks g) g fuel n w ≡ done (record w { sub = s }, q))

  -- The visitor at the member that holds the byte
  abbrev after_member : NodeId → NodeId → Destructure → Destructure
  after_member e b s = record s {
    outermost_candidate = some (record { member = some e; type_of_member = some b });
  }

  visit_last :
      (base : ℕ) (e b : NodeId) (d : DerivedType) (s : Destructure)
      → Ready base s
      → IsHolder g byte base e b d
      → (is_pointer_like (g b) || is_array (g b)) ≡ true
      → visit_member g e d s ≡ done (record (after_member e b s) { terminate = true }, false)
  unfolding visit_member
  visit_last base e b d s r h stops =
      rw (h.non_static, h.base_eq, visit_member)
        (rw (r.at_byte, r.at_base) (rw (inside g byte base e b d h, stops) refl))

  visit_simple :
      (base : ℕ) (e b : NodeId) (d : DerivedType) (t : BasicType) (s : Destructure)
      → Ready base s
      → IsHolder g byte base e b d
      → g b ≡ basic t
      → visit_member g e d s ≡ done (after_member e b s, true)
  unfolding visit_member is_pointer_like is_array
  visit_simple base e b d t s r h is_basic =
      rw (h.non_static, h.base_eq, visit_member)
        (rw (r.at_byte, r.at_base) (rw (inside g byte base e b d h, is_basic) refl))

  visit_nested :
      (base : ℕ) (e b : NodeId) (d : DerivedType) (c : CompositeType) (s : Destructure)
      → Ready base s
      → IsHolder g byte base e b d
      → g b ≡ composite c
      → is_array (g b) ≡ false
      → visit_member g e d s
        ≡ done (record (after_member e b s) { offset_base = begin base d }, true)
  unfolding visit_member is_pointer_like is_array
  visit_nested base e b d c s r h is_composite no_array =
      rw (h.non_static, h.base_eq, visit_member)
        (rw (r.at_byte, r.at_base)
          (rw (inside g byte base e b d h, no_array, is_composite) (ground (arith, h.fits))))

  member_done :
      (base : ℕ) (e b : NodeId) (d : DerivedType) (s : Destructure)
      → Ready base s
      → IsHolder g byte base e b d
      → Found base (record { member = some e; type_of_member = some b }) (after_member e b s)
  member_done base e b d s r h = record {
    candidate = refl;
    at_byte = r.at_byte;
    from_base = omega (arith, r.at_base);
    to_byte = omega (arith, r.at_base, h.lower);
  }

  -- From the run of the member to that of the composite
  from_member :
      (fuel base : ℕ) (n e b : NodeId) (c : CompositeType) (d : DerivedType) (m : StructMember)
      (w : Walk Destructure)
      → byte < 2 ^ 64
      → g n ≡ composite c
      → contains w.visited n ≡ false
      → IsMember c base e b d
      → Ready base w.sub
      → Runs
          (suc (suc fuel))
          e
          (record w { visited = n ∷ w.visited; depth_composite = suc w.depth_composite })
          base
          m
      → Runs (suc (suc (suc fuel))) n w base m
  unfolding invoke_if_any dispatch traverse_elements
  from_member fuel base n e b c d m w small is_composite fresh k r (s, q, found, runs) =
      let inv = invoke_if_any (destructure_hooks g) g (suc (suc fuel)) in
      let w1 : Walk Destructure = record w {
        visited = n ∷ w.visited;
        depth_composite = suc w.depth_composite;
      } in
      let all_before : All (IsBefore g byte w.sub.offset_base) k.before =
        subst (λ o. All (IsBefore g byte o) k.before) (sym r.at_base) k.all_before in
      let last =
        behind_run g byte fuel base k.behind (record w1 { sub = s }) found.at_byte found.from_base
          found.to_byte k.all_behind in
      let all : traverse_elements (destructure_hooks g) g inv c.elements w1
          ≡ done (record w1 { sub = s }) =
        ap (λ es. traverse_elements (destructure_hooks g) g inv es w1) k.elements
        ∙ before_run g byte fuel k.before (e ∷ k.behind) w1 small r.at_byte all_before
        ∙ ap
            (λ (o : Outcome (Walk Destructure × Bool)).
              o >>= λ x. traverse_elements (destructure_hooks g) g inv k.behind x.0)
            runs
        ∙ last in
      (
        s,
        true,
        found,
        rw is_composite (composite_run g inv n c w s fresh k.underived k.no_array r.goes_on all),
      )

  -- The visitor finds the member that the nested members lead to.
  finds :
      (depth fuel : ℕ) (path : List NodeId) (n : NodeId) (base : ℕ) (m : StructMember)
      (w : Walk Destructure)
      → byte < 2 ^ 64
      → Innermost depth path n base m
      → w.visited ≡ path
      → Ready base w.sub
      → 2 * depth + 2 < fuel
      → Runs fuel n w base m
  unfolding invoke_if_any dispatch
  finds depth zero path n base m w small i v r f = absurd (omega arith)
  finds depth (suc zero) path n base m w small i v r f = absurd (omega arith)
  finds depth (suc (suc zero)) path n base m w small i v r f = absurd (omega arith)
  finds depth (suc (suc (suc fuel))) path n base m w small
        (simple c e b d t is_composite fresh k is_basic) v r f =
      let fresh' = subst (λ p. contains p n ≡ false) (sym v) fresh in
      from_member fuel base n e b c d m w small is_composite fresh' k r (
        after_member e b w.sub,
        true,
        member_done base e b d w.sub r k.holder,
        rw k.holder.is_derived (
            derived_run g (invoke_if_any (destructure_hooks g) g (suc fuel)) e b d _
              (after_member e b w.sub) (after_member e b w.sub) true k.holder.is_derived
              (visit_simple base e b d t w.sub r k.holder is_basic) k.holder.base_eq
              (basic_run g fuel b t _ is_basic)),
      )
  finds depth (suc (suc (suc fuel))) path n base m w small
        (pointer c e b d is_composite fresh k stops) v r f =
      let fresh' = subst (λ p. contains p n ≡ false) (sym v) fresh in
      let done_here = member_done base e b d w.sub r k.holder in
      from_member fuel base n e b c d m w small is_composite fresh' k r (
        record (after_member e b w.sub) { terminate = true },
        false,
        record {
          candidate = done_here.candidate;
          at_byte = done_here.at_byte;
          from_base = done_here.from_base;
          to_byte = done_here.to_byte;
        },
        rw k.holder.is_derived (
            derived_stop g (invoke_if_any (destructure_hooks g) g (suc fuel)) e d _
              (record (after_member e b w.sub) { terminate = true }) k.holder.is_derived
              (visit_last base e b d w.sub r k.holder stops)),
      )
  finds (suc depth) (suc (suc (suc fuel))) path n base m w small
        (nested c inner e b d is_composite fresh k is_inner no_array i) v r f =
      let fresh' = subst (λ p. contains p n ≡ false) (sym v) fresh in
      let entered : Destructure = record (after_member e b w.sub) { offset_base = begin base d } in
      let (s, q, found, runs) =
        finds depth (suc fuel) (n ∷ path) b (begin base d) m
          (record w {
            sub = entered;
            visited = n ∷ w.visited;
            depth_composite = suc w.depth_composite;
            depth_derived = suc w.depth_derived;
          })
          small i (ap (λ p. n ∷ p) v)
          (record { at_byte = r.at_byte; at_base = refl; goes_on = r.goes_on }) (omega arith) in
      from_member fuel base n e b c d m w small is_composite fresh' k r (
        s,
        q,
        record {
          candidate = found.candidate;
          at_byte = found.at_byte;
          from_base = omega (arith, found.from_base);
          to_byte = found.to_byte;
        },
        rw k.holder.is_derived (
            derived_run g (invoke_if_any (destructure_hooks g) g (suc fuel)) e b d _ entered s q
              k.holder.is_derived (visit_nested base e b d inner w.sub r k.holder is_inner no_array)
              k.holder.base_eq runs),
      )

  -- If nested members that hold the byte lead from a composite to a member of basic type, a pointer or an
  -- array that holds it, and the siblings of these members are members of basic type that end before the
  -- byte or start behind it, then with fuel for the nesting resolve_byte_offset_to_member_of returns
  -- that member and its base type. The byte and the ends of the members are less than 2^64.
  pub resolve-Innermost :
      (depth fuel : ℕ) (n : NodeId) (m : StructMember)
      → byte < 2 ^ 64
      → Innermost depth [] n 0 m
      → 2 * depth + 2 < fuel
      → resolve_byte_offset_to_member_of g fuel n byte ≡ done (some m)
  unfolding resolve_byte_offset_to_member_of
  resolve-Innermost depth fuel n m small i f =
      let (s, q, found, runs) =
        finds depth fuel [] n 0 m (start (new_destructure g byte)) small i refl
          (record { at_byte = refl; at_base = refl; goes_on = refl }) f in
      ap (λ (o : Outcome (Walk Destructure × Bool)). o >>= λ r. done r.0.sub.outermost_candidate)
        runs
      ∙ ap done found.candidate
