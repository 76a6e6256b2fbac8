-- ===== src/DiUtil/ByteOffset.antt =====
-- `resolve_byte_offset_to_member_of` of lib/type/DIUtil.cpp: the visitor DestructureComposite looks
-- for the innermost member that holds a byte of a composite type.
pub mod Steps
pub mod Innermost
use llvm_dimeta.Base.{
  ltb, leb, if◌then◌else◌, has_value, add64, Outcome, done, ◌>>=◌, deref, ℕ, ◌/◌, Bool, true, false,
  not, ◌&&◌, ◌||◌, Option, none, some,
}
use llvm_dimeta.Metadata.{NodeId, DerivedType, derived, Metadata, as_derived, as_composite}
use llvm_dimeta.DiUtil.{is_pointer_like, is_non_static_member, is_array}
use llvm_dimeta.Visitor.{
  Kind, at_derived_type, at_composite_type, Hooks, default_hooks, start, invoke_if_any,
}

-- StructMember of lib/type/DIUtil.h
pub record StructMember : Type 0 where
  pub member : Option NodeId
  pub type_of_member : Option NodeId

-- The fields of DestructureComposite
pub record Destructure : Type 0 where
  pub byte_index : ℕ
  pub offset_base : ℕ
  pub outermost_candidate : Option StructMember
  pub terminate : Bool

module _ (g : Metadata) where
  -- visitDerivedType
  unfoldable pub visit_member : NodeId → DerivedType → Destructure → Outcome (Destructure × Bool)
  visit_member n d s =
      if not (is_non_static_member (derived d))
      then done (s, true)
      else let offset = add64 s.offset_base (d.offset_in_bits / 8) in
        let upper_bound = add64 offset (d.size_in_bits / 8) in
        if leb offset s.byte_index && ltb s.byte_index upper_bound
        then (do
          base ← deref d.base_type
          let s' = record s {
            outermost_candidate = some (record { member = some n; type_of_member = d.base_type });
          }
          if is_pointer_like (g base) || is_array (g base)
              then done (record s' { terminate = true }, false)
              else done (
                if has_value (as_composite (g base))
                    then record s' { offset_base = offset }
                    else s',
                true,
              ))
        else done (s, true)

  unfoldable pub visit_destructure : Kind → NodeId → Destructure → Outcome (Destructure × Bool)
  unfolding visit_member
  visit_destructure at_composite_type n s = done (s, not s.terminate)
  visit_destructure at_derived_type n s = elim (as_derived (g n)) [
    | some d ↦ visit_member n d s
    | none ↦ done (s, true)
  ]
  visit_destructure k n s = done (s, true)

  abbrev pub destructure_hooks : Hooks Destructure
  destructure_hooks = record (default_hooks Destructure) { visit = visit_destructure }

  abbrev pub new_destructure : ℕ → Destructure
  new_destructure offset = record {
    byte_index = offset;
    offset_base = 0;
    outermost_candidate = none;
    terminate = false;
  }

  -- The traversal starts with traverseCompositeType at the composite `n`.
  unfoldable pub resolve_byte_offset_to_member_of : ℕ → NodeId → ℕ → Outcome (Option StructMember)
  unfolding invoke_if_any visit_destructure
  resolve_byte_offset_to_member_of fuel n offset = do
    r ← invoke_if_any destructure_hooks g fuel n (start (new_destructure offset))
    done r.0.sub.outermost_candidate
