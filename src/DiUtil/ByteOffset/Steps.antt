-- ===== src/DiUtil/ByteOffset/Steps.antt =====
-- How the visitor of `resolve_byte_offset_to_member_of` in lib/type/DIUtil.cpp goes through members and
-- composites.
use llvm_dimeta.Base.{
  ==_iff, ltb, leb, ◌==◌, add64, contains, erase, erase-absent, All, Outcome, done, ℕ, suc, ◌+◌,
  ◌/◌, ◌^◌, ◌≤◌, ◌<◌, ◌≡◌, refl, sym, ap, Bool, true, false, ◌&&◌, none, some, List, [], ◌∷◌, ◌++◌,
  arith,
}
use llvm_dimeta.Metadata.{
  dw_tag_array_type, NodeId, DerivedType, CompositeType, BasicType, basic, derived, Metadata,
}
use llvm_dimeta.DiUtil.{is_non_static_member}
use llvm_dimeta.Visitor.{
  at_derived_type, Walk, enter_hook, visit_hook, leave_hook, pop_var, pop_derived, pop_composite,
  traverse_leaf, traverse_derived_type, traverse_type, traverse_elements, traverse_parts,
  open_composite, traverse_fresh_composite, traverse_composite_type, dispatch, invoke_if_any,
}
use llvm_dimeta.DiUtil.ByteOffset.{Destructure, visit_member, visit_destructure, destructure_hooks}

-- The byte where a member of a composite at `base` begins, and the one behind its end
abbrev pub begin : ℕ → DerivedType → ℕ
begin base d = base + d.offset_in_bits / 8

abbrev pub end : ℕ → DerivedType → ℕ
end base d = begin base d + d.size_in_bits / 8

module _ (g : Metadata) where
  visits :
      (e : NodeId) (d : DerivedType) (s : Destructure)
      → g e ≡ derived d
      → visit_destructure g at_derived_type e s ≡ visit_member g e d s
  unfolding visit_destructure
  visits e d s is_derived = rw (is_derived, visit_destructure)

  pub derived_run :
      (inv : NodeId → Walk Destructure → Outcome (Walk Destructure × Bool)) (e b : NodeId)
      (d : DerivedType) (w : Walk Destructure) (s s' : Destructure) (q : Bool)
      → g e ≡ derived d
      → visit_member g e d w.sub ≡ done (s, true)
      → d.base_type ≡ some b
      → inv b (record w { sub = s; depth_derived = suc w.depth_derived })
        ≡ done (record w { sub = s'; depth_derived = suc w.depth_derived }, q)
      → traverse_derived_type (destructure_hooks g) g inv e d w ≡ done (record w { sub = s' }, q)
  unfolding traverse_derived_type enter_hook visit_hook leave_hook pop_derived traverse_type
      visit_destructure
  derived_run inv e b d w s s' q is_derived visited base below =
      rw (traverse_derived_type, visit_hook, visits e d w.sub is_derived, visited)
        (rw (base, traverse_type, below) (ground arith))

  pub derived_stop :
      (inv : NodeId → Walk Destructure → Outcome (Walk Destructure × Bool)) (e : NodeId)
      (d : DerivedType) (w : Walk Destructure) (s : Destructure)
      → g e ≡ derived d
      → visit_member g e d w.sub ≡ done (s, false)
      → traverse_derived_type (destructure_hooks g) g inv e d w ≡ done (record w { sub = s }, false)
  unfolding traverse_derived_type enter_hook visit_hook leave_hook pop_derived traverse_type
      visit_destructure
  derived_stop inv e d w s is_derived visited =
      rw (traverse_derived_type, visit_hook, visits e d w.sub is_derived, visited) (ground arith)

  pub basic_run :
      (fuel : ℕ) (n : NodeId) (b : BasicType) (w : Walk Destructure)
      → g n ≡ basic b
      → invoke_if_any (destructure_hooks g) g (suc fuel) n w ≡ done (w, true)
  unfolding invoke_if_any dispatch traverse_leaf enter_hook visit_hook leave_hook pop_var
      visit_destructure
  basic_run fuel n b w is_basic = rw is_basic (ground arith)

  -- A non-static member of basic type
  pub record IsSimple (e : NodeId) (d : DerivedType) : Type 0 where
    pub is_derived : g e ≡ derived d
    pub target : NodeId
    pub target_eq : d.base_type ≡ some target
    pub type : BasicType
    pub is_basic : g target ≡ basic type

  erase_head : (n : NodeId) (v : List NodeId) → contains v n ≡ false → erase n (n ∷ v) ≡ v
  erase_head n v fresh = ground (arith, (==_iff n n).1 refl, erase-absent n v fresh)

  leaves :
      (w : Walk Destructure) (s : Destructure) (n : NodeId)
      → contains w.visited n ≡ false
      → pop_composite (destructure_hooks g) g (record w {
        sub = s;
        visited = erase n (n ∷ w.visited);
        depth_composite = suc w.depth_composite;
      })
        ≡ done (record w { sub = s })
  unfolding pop_composite
  leaves w s n fresh = rw (erase_head n w.visited fresh) (ground arith)

  pub composite_run :
      (inv : NodeId → Walk Destructure → Outcome (Walk Destructure × Bool)) (n : NodeId)
      (c : CompositeType) (w : Walk Destructure) (s : Destructure)
      → contains w.visited n ≡ false
      → c.base_type ≡ none
      → (c.tag == dw_tag_array_type) ≡ false
      → w.sub.terminate ≡ false
      → traverse_elements
          (destructure_hooks g)
          g
          inv
          c.elements
          (record w { visited = n ∷ w.visited; depth_composite = suc w.depth_composite })
        ≡ done
            (record w { sub = s; visited = n ∷ w.visited; depth_composite = suc w.depth_composite })
      → traverse_composite_type (destructure_hooks g) g inv n c w
        ≡ done (record w { sub = s }, true)
  unfolding traverse_composite_type traverse_fresh_composite enter_hook visit_hook leave_hook
      traverse_parts traverse_type open_composite visit_destructure
  composite_run inv n c w s fresh underived no_array goes_on below =
      let same : record w.sub { terminate = false } ≡ w.sub =
        ap (λ (b : Bool). record w.sub { terminate = b }) (sym goes_on) in
      rw (fresh, traverse_composite_type)
        (rw (no_array, traverse_fresh_composite, open_composite, traverse_parts, goes_on, underived)
          (rw (same, below) (rw (leaves w s n fresh) refl)))

  module _ (byte : ℕ) where
    -- A member of basic type that ends before the byte, in a composite at `base`
    abbrev pub IsBefore : ℕ → NodeId → Type 0
    IsBefore base e = (d : DerivedType) × IsSimple e d × (end base d ≤ byte)

    -- A member of basic type that starts behind the byte, in a composite at `base`
    abbrev pub IsBehind : ℕ → NodeId → Type 0
    IsBehind base e =
        (d : DerivedType) × IsSimple e d × (byte < begin base d) × (end byte d < 2 ^ 64)

    -- The non-static member `d` holds the byte, in a composite at `base`.
    pub record IsHolder (base : ℕ) (e b : NodeId) (d : DerivedType) : Type 0 where
      pub is_derived : g e ≡ derived d
      pub base_eq : d.base_type ≡ some b
      pub non_static : is_non_static_member (derived d) ≡ true
      pub lower : begin base d ≤ byte
      pub upper : byte < end base d
      pub fits : end base d < 2 ^ 64

    -- Outside its bounds a member changes nothing.
    outside :
        (e : NodeId) (d : DerivedType) (s : Destructure)
        → (leb (add64 s.offset_base (d.offset_in_bits / 8)) s.byte_index
            && ltb s.byte_index
                (add64 (add64 s.offset_base (d.offset_in_bits / 8)) (d.size_in_bits / 8)))
          ≡ false
        → visit_member g e d s ≡ done (s, true)
    unfolding visit_member
    outside e d s h = ground (arith, h)

    before :
        (base : ℕ) (d : DerivedType)
        → byte < 2 ^ 64
        → end base d ≤ byte
        → (leb (add64 base (d.offset_in_bits / 8)) byte
            && ltb byte (add64 (add64 base (d.offset_in_bits / 8)) (d.size_in_bits / 8)))
          ≡ false
    before base d small h = ground arith

    behind :
        (base now : ℕ) (d : DerivedType)
        → base ≤ now
        → now ≤ byte
        → byte < begin base d
        → end byte d < 2 ^ 64
        → (leb (add64 now (d.offset_in_bits / 8)) byte
            && ltb byte (add64 (add64 now (d.offset_in_bits / 8)) (d.size_in_bits / 8)))
          ≡ false
    behind base now d l u h k = ground arith

    pub inside :
        (base : ℕ) (e b : NodeId) (d : DerivedType)
        → IsHolder base e b d
        → (leb (add64 base (d.offset_in_bits / 8)) byte
            && ltb byte (add64 (add64 base (d.offset_in_bits / 8)) (d.size_in_bits / 8)))
          ≡ true
    inside base e b d h = ground (arith, h.lower, h.upper, h.fits)

    simple_run :
        (fuel : ℕ) (e : NodeId) (d : DerivedType) (w : Walk Destructure)
        → IsSimple e d
        → visit_member g e d w.sub ≡ done (w.sub, true)
        → invoke_if_any (destructure_hooks g) g (suc (suc fuel)) e w ≡ done (w, true)
    unfolding invoke_if_any dispatch
    simple_run fuel e d w m v = rw m.is_derived (
        derived_run (invoke_if_any (destructure_hooks g) g (suc fuel)) e m.target d w w.sub w.sub
          true m.is_derived v m.target_eq (basic_run fuel m.target m.type _ m.is_basic))

    pub before_run :
        (fuel : ℕ) (es rest : List NodeId) (w : Walk Destructure)
        → byte < 2 ^ 64
        → w.sub.byte_index ≡ byte
        → All (IsBefore w.sub.offset_base) es
        → traverse_elements
            (destructure_hooks g)
            g
            (invoke_if_any (destructure_hooks g) g (suc (suc fuel)))
            (es ++ rest)
            w
          ≡ traverse_elements
              (destructure_hooks g)
              g
              (invoke_if_any (destructure_hooks g) g (suc (suc fuel)))
              rest
              w
    unfolding traverse_elements
    before_run fuel [] rest w small at_byte h = refl
    before_run fuel (e ∷ es) rest w small at_byte ((d, m, ends), others) =
        rw
          (simple_run fuel e d w m
            (outside e d w.sub (rw at_byte (before w.sub.offset_base d small ends))))
          (before_run fuel es rest w small at_byte others)

    pub behind_run :
        (fuel base : ℕ) (es : List NodeId) (w : Walk Destructure)
        → w.sub.byte_index ≡ byte
        → base ≤ w.sub.offset_base
        → w.sub.offset_base ≤ byte
        → All (IsBehind base) es
        → traverse_elements
            (destructure_hooks g)
            g
            (invoke_if_any (destructure_hooks g) g (suc (suc fuel)))
            es
            w
          ≡ done w
    unfolding traverse_elements
    behind_run fuel base [] w at_byte l u h = refl
    behind_run fuel base (e ∷ es) w at_byte l u ((d, m, starts, fits), rest) =
        rw
          (simple_run fuel e d w m
            (outside e d w.sub (rw at_byte (behind base w.sub.offset_base d l u starts fits))))
          (behind_run fuel base es w at_byte l u rest)
