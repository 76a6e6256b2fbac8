-- ===== src/TypeExtractor/Fold.antt =====
-- find_type of lib/type/DITypeExtractor.cpp as a whole: from the type at the end of a path, value by value,
-- to its start.
use llvm_dimeta.Base.{
  if◌then◌else◌, Option-cases, has_value, get_elem?, reverse, back?-append, reverse_onto-append,
  Outcome, done, ◌>>=◌, deref, done-injective, >>=-eq-done, ℕ, suc, ◌≡◌, refl, sym, ap, subst, ◌∙◌,
  ◌⊎◌, inl, inr, Bool, true, false, Option, none, some, some-injective, List, [], ◌∷◌, ◌++◌,
  append-nil,
}
use llvm_dimeta.TypeExtractor.Knot.{Program, default_config, finder_of, type_for_with, find_type}
use llvm_dimeta.RootType.{find_type_root}
use llvm_dimeta.Metadata.{Metadata, Ptr}
use llvm_dimeta.Ir.{ValueId, Ir}
use llvm_dimeta.ValuePath.{ValuePath, start_value}
use llvm_dimeta.TypeExtractor.FortranType.{IrMapping, final_type, value_or}
use llvm_dimeta.TypeExtractor.FindType.{
  is_fortran_call, reset_ditype, reset_path, tbaa_mapping, type_along, find_type_from,
}
use llvm_dimeta.Dataflow.{as_store}
use llvm_dimeta.Tbaa.Resolve.{resolve_tbaa}
use llvm_dimeta.Tbaa.{TbaaData}
use llvm_dimeta.TypeExtractor.Resets.{Resets, Ends, reset_path-Ends, final_type-last, value_or-some}

module _ (use_tbaa : Bool) (tbaa : TbaaData) (g : Metadata) (ir : Ir) (chain walk : ℕ) where
  -- What the access tag of a store at the start of the path adds
  abbrev pub added_mapping : ValuePath → Ptr → Outcome (List IrMapping)
  added_mapping path t =
      if use_tbaa then tbaa_mapping use_tbaa tbaa g ir chain walk path t else done []

  -- The result: what the first value made of the type, if the tag adds nothing; else what the tag adds
  pub data Told (path : ValuePath) (before : Ptr) (last : Option Ptr) (first : ValueId) (t : Ptr)
      : Type 0 where
    by_value :
        added_mapping path (value_or last before) ≡ done []
        → last ≡ some t
        → Told path before last first t
    by_tag :
        added_mapping path (value_or last before)
          ≡ done (record { from_value = some first; mapped = t } ∷ [])
        → Told path before last first t

  -- The result comes from `root`, the type at the path's end, by the values from the last to the second,
  -- and then by the first value; it is not null.
  pub record ResetFrom (path : ValuePath) (root t : Ptr) : Type 0 where
    pub first : ValueId
    pub others : List ValueId
    pub path_eq : path.path_to_value ≡ first ∷ others
    pub before : Ptr
    pub resets : Resets use_tbaa tbaa g ir chain walk path (reverse others) root before
    pub last : Option Ptr
    pub last_eq : reset_ditype use_tbaa tbaa g ir chain walk path before first ≡ done last
    pub result : Told path before last first t
    pub not_null : has_value t ≡ true

  -- The tag adds nothing, or one mapping of the value at the start.
  abbrev OneOf : ValuePath → List IrMapping → Type 0
  OneOf path added =
      (added ≡ [])
      ⊎ (s : ValueId) × (p : Ptr) × (start_value path ≡ some s)
        × (added ≡ record { from_value = some s; mapped = p } ∷ [])

  deref-some : (o : Option ValueId) (s : ValueId) → deref o ≡ done s → o ≡ some s
  deref-some none s e = cc
  deref-some (some a) s e = ap some (done-injective a s e)

  tbaa_mapping-OneOf :
      (path : ValuePath) (t : Ptr) (added : List IrMapping)
      → tbaa_mapping use_tbaa tbaa g ir chain walk path t ≡ done added
      → OneOf path added
  unfolding tbaa_mapping
  tbaa_mapping-OneOf path t added h =
      let (s, start, k) = >>=-eq-done (deref (start_value path)) _ h in
      elim (Option-cases (as_store (ir.value s))) [
        | inl no_store ↦ inl (sym (done-injective [] added (rw no_store at k)))
        | inr (pointer, stores) ↦
            let (r, resolved, k2) =
              >>=-eq-done (resolve_tbaa g tbaa walk chain t s) _ (rw stores at k) in
            elim (Option-cases r) [
              | inl nothing ↦ inl (sym (done-injective [] added (rw nothing at k2)))
              | inr (p, found) ↦ inr (
                s,
                p,
                deref-some (start_value path) s start,
                sym (done-injective _ added (rw found at k2)),
              )
            ]
      ]

  added_mapping-OneOf :
      (b : Bool) (path : ValuePath) (t : Ptr) (added : List IrMapping)
      → (if b then tbaa_mapping use_tbaa tbaa g ir chain walk path t else done []) ≡ done added
      → OneOf path added
  added_mapping-OneOf true path t added h = tbaa_mapping-OneOf path t added h
  added_mapping-OneOf false path t added h = inl (sym (done-injective [] added h))

  told :
      (path : ValuePath) (s : ValueId) (vs : List ValueId) (root t : Ptr) (r : Ptr × List IrMapping)
      (added : List IrMapping)
      (ends : Ends use_tbaa tbaa g ir chain walk path (reverse vs) s root r)
      → path.path_to_value ≡ s ∷ vs
      → added_mapping path r.0 ≡ done added
      → OneOf path added
      → final_type (r.1 ++ added) ≡ some t
      → Told path ends.before ends.last s t × (has_value t ≡ true)
  unfolding start_value
  told path s vs root t r added ends p e (inl empty) f =
      let (same, not_null) =
        final_type-last r.1 (some s) (value_or ends.last none) t ends.maps_eq
          (subst (λ q. final_type q ≡ some t) (ap (λ l. r.1 ++ l) empty ∙ append-nil r.1) f) in
      (
        by_value (ap (added_mapping path) ends.type_eq ∙ e ∙ ap done empty)
            (value_or-some ends.last t same not_null),
        not_null,
      )
  told path s vs root t r added ends p e (inr (s', m, start, one)) f =
      let (same, not_null) =
        final_type-last (r.1 ++ record { from_value = some s'; mapped = m } ∷ []) (some s') m t
          (back?-append r.1 _) (subst (λ q. final_type q ≡ some t) (ap (λ l. r.1 ++ l) one) f) in
      let first : s' ≡ s = some-injective s' s (sym start ∙ ap (λ l. get_elem? l 0) p) in
      (
        by_tag (
            ap (added_mapping path) ends.type_eq
            ∙ e
            ∙ ap done one
            ∙ ap (λ (v : ValueId). done (record { from_value = some v; mapped = m } ∷ [])) first
            ∙ ap (λ (q : Ptr). done (record { from_value = some s; mapped = q } ∷ [])) same),
        not_null,
      )

  -- On an empty path there is no mapping.
  empty_path :
      (path : ValuePath) (t : Ptr) (added : List IrMapping)
      → path.path_to_value ≡ []
      → OneOf path added
      → ¬ (final_type added ≡ some t)
  unfolding final_type start_value
  empty_path path t added p (inl empty) f =
      let e : none ≡ some t = subst (λ q. final_type q ≡ some t) empty f in cc
  empty_path path t added p (inr (s, m, start, one)) f =
      let e : none ≡ some s = sym (ap (λ l. get_elem? l 0) p) ∙ start in cc

  reset_along :
      (path : ValuePath) (vs : List ValueId) (root t : Ptr)
      → path.path_to_value ≡ vs
      → (do
        r ← reset_path use_tbaa tbaa g ir chain walk path (reverse vs) root []
        added ← added_mapping path r.0
        done (final_type (r.1 ++ added)))
        ≡ done (some t)
      → ResetFrom path root t
  unfolding reset_path final_type
  reset_along path [] root t p h =
      let (added, adds, k) = >>=-eq-done (added_mapping path root) _ h in
      absurd (
        empty_path path t added p (added_mapping-OneOf use_tbaa path root added adds)
          (done-injective (final_type added) (some t) k))
  reset_along path (s ∷ vs) root t p h =
      let (r, e, k) =
        >>=-eq-done (reset_path use_tbaa tbaa g ir chain walk path (reverse (s ∷ vs)) root []) _
          h in
      let (added, adds, k2) = >>=-eq-done (added_mapping path r.0) _ k in
      let ends = reset_path-Ends use_tbaa tbaa g ir chain walk path (reverse vs) s root [] (
        subst (λ q. reset_path use_tbaa tbaa g ir chain walk path q root [] ≡ done r)
          (reverse_onto-append (s ∷ []) vs) e) in
      let f =
        told path s vs root t r added ends p adds (added_mapping-OneOf use_tbaa path r.0 added adds)
          (done-injective (final_type (r.1 ++ added)) (some t) k2) in
      record {
        first = s;
        others = vs;
        path_eq = p;
        before = ends.before;
        resets = ends.resets;
        last = ends.last;
        last_eq = ends.last_eq;
        result = f.0;
        not_null = f.1;
      }

  along-ResetFrom :
      (strip : ValueId → ValueId) (c : Option ValueId) (path : ValuePath) (found : Option Ptr)
      (t : Ptr)
      → is_fortran_call ir c ≡ false
      → find_type_from use_tbaa tbaa g ir chain walk strip (done found) c path ≡ done (some t)
      → (root : Ptr) × (found ≡ some root) × ResetFrom path root t
  unfolding find_type_from type_along
  along-ResetFrom strip c path none t n h = cc
  along-ResetFrom strip c path (some root) t n h =
      (root, refl, reset_along path path.path_to_value root t refl (rw n at h))

module _ (program : Program) (fuel chain walk : ℕ) where
  -- What find_type of DITypeExtractor.cpp asks find_type_root
  abbrev pub root_for : ℕ → Option ValueId → ValuePath → Outcome (Option Ptr)
  root_for depth c path =
      let find = find_type program fuel chain walk depth in
      find_type_root program.metadata program.ir (finder_of program fuel chain walk find) fuel
        (λ v call. type_for_with program fuel chain walk find v call default_config) (suc depth) c
        path

  -- If find_type finds a type, at a call that does not allocate for Fortran or at none, then
  -- find_type_root found a type, the path is not empty, and the result, which is not a null pointer,
  -- comes from that type by the path's values in turn, the last value first: reset_ditype makes the next
  -- type at each value, and a value that gives no type leaves the type as it is. At the first value
  -- reset_ditype gives the result itself, unless with the TBAA metadata the access tag of a store there
  -- adds a type: then that is the result.
  pub find_type-ResetFrom :
      (depth : ℕ) (c : Option ValueId) (path : ValuePath) (t : Ptr)
      → is_fortran_call program.ir c ≡ false
      → find_type program fuel chain walk (suc depth) c path ≡ done (some t)
      → (root : Ptr) × (root_for depth c path ≡ done (some root))
        × ResetFrom program.use_tbaa program.tbaa program.metadata program.ir chain walk path root t
  unfolding find_type find_type_from
  find_type-ResetFrom depth c path t no_fortran h =
      let (found, e, k) = >>=-eq-done (root_for depth c path) _ h in
      let (root, f, r) =
        along-ResetFrom program.use_tbaa program.tbaa program.metadata program.ir chain walk
          program.strip_pointer_casts c path found t no_fortran k in
      (root, e ∙ ap done f, r)
