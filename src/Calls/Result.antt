-- ===== src/Calls/Result.antt =====
-- What type_for of lib/type/Dimeta.cpp returns for an allocation call.

use llvm_dimeta.Base.{
  Bool-cases, Option-cases, has_value, done, ◌>>=◌, done-injective, >>=-eq-done, ℕ, ◌+◌, ◌%◌, ◌^◌,
  ◌≡◌, refl, ap, subst, ◌∙◌, inl, inr, Bool, true, false, not, ◌&&◌, Option, none, some,
  some-injective, List, arith,
}
use llvm_dimeta.Metadata.{Metadata, Ptr}
use llvm_dimeta.Ir.{ValueId, Call, Ir}
use llvm_dimeta.Calls.TypeFor.{
  extract_for_callbase, heap_data, type_for_resolved_callbase, type_for_call,
}
use llvm_dimeta.Calls.{
  ResolvedCallBaseTypeConfig, Dataflow, CallBaseTypeConfig, is_auto, heap, DimetaData, Finder,
  resolve_callbase_config, keep_typed, final_ditype,
}
use llvm_dimeta.Dataflow.Fortran.{IndexDim}

keep_typed_lem :
    (dataflow : Dataflow) (result : Option DimetaData) (d : DimetaData)
    → keep_typed dataflow result ≡ some d
    → (result ≡ some d) × (is_auto dataflow ≡ false → has_value d.entry_type ≡ true)
keep_typed_lem dataflow none d h = cc
keep_typed_lem dataflow (some r) d h =
    elim (Bool-cases (not (is_auto dataflow) && not (has_value r.entry_type))) [
      | inl drops ↦ let n : none ≡ some d = rw drops at h in cc
      | inr keeps ↦
          let same : some r ≡ some d = rw keeps at h in
          subst
            (λ x. (some r ≡ some x) × (is_auto dataflow ≡ false → has_value x.entry_type ≡ true))
            (some-injective r d same) (refl, λ explicit. ground arith)
    ]

module _ (use_heapallocsite : Bool) (g : Metadata) (ir : Ir) (finder : Finder) where
  pub record Resolved (chain : ℕ) (v : ValueId) (resolved : ResolvedCallBaseTypeConfig)
      (d : DimetaData) : Type 0 where
    pub location : d.memory_location ≡ heap
    pub source_location : d.di_location ≡ finder.find_location v
    pub level : ℕ
    pub final : final_ditype g chain d.entry_type ≡ done (d.base_type, level)
    pub pointers : d.pointer_level ≡ (level + resolved.pointer_level_offset) % 2 ^ 32

  heap_data-Resolved :
      (chain : ℕ) (v : ValueId) (resolved : ResolvedCallBaseTypeConfig)
      (e : Option Ptr × Option (List IndexDim)) (d : DimetaData)
      → heap_data use_heapallocsite g ir finder chain v resolved e ≡ done d
      → Resolved chain v resolved d
  unfolding heap_data
  heap_data-Resolved chain v resolved e d h =
      let (r, final, same) = >>=-eq-done (final_ditype g chain e.0) _ h in
      subst (Resolved chain v resolved) (done-injective _ d same) (record {
        location = refl;
        source_location = refl;
        level = r.1;
        final = final;
        pointers = refl;
      })

  from_some :
      (chain : ℕ) (v : ValueId) (resolved : ResolvedCallBaseTypeConfig)
      (x : Option (Option Ptr × Option (List IndexDim))) (d : DimetaData)
      → elim x [
        | none ↦ done none
        | some e ↦ heap_data use_heapallocsite g ir finder chain v resolved e >>= λ d. done (some d)
      ]
        ≡ done (some d)
      → Resolved chain v resolved d
  from_some chain v resolved none d h = let n : none ≡ some d = done-injective none (some d) h in cc
  from_some chain v resolved (some e) d h =
      let (d', made, same) =
        >>=-eq-done (heap_data use_heapallocsite g ir finder chain v resolved e) _ h in
      subst (Resolved chain v resolved) (some-injective d' d (done-injective _ _ same))
        (heap_data-Resolved chain v resolved e d' made)

  type_for_resolved_callbase-Resolved :
      (fuel chain : ℕ) (v : ValueId) (c : Call) (resolved : ResolvedCallBaseTypeConfig)
      (d : DimetaData)
      → type_for_resolved_callbase use_heapallocsite g ir finder fuel chain v c resolved
        ≡ done (some d)
      → Resolved chain v resolved d
  unfolding type_for_resolved_callbase
  type_for_resolved_callbase-Resolved fuel chain v c resolved d h =
      let (x, extracted, rest) =
        >>=-eq-done (extract_for_callbase use_heapallocsite g ir finder fuel v c resolved) _ h in
      from_some chain v resolved x d rest

  -- The data that type_for returns for a call come from a configuration that was accepted for it: the
  -- memory is on the heap, the base type is the final type of the entry type, and the pointer level is
  -- the number of pointers up to the final type plus the offset, as an int. An explicit configuration
  -- returns data only with an entry type.
  pub type_for_call-Resolved :
      (fuel chain : ℕ) (v : ValueId) (c : Call) (config : CallBaseTypeConfig) (d : DimetaData)
      → type_for_call use_heapallocsite g ir finder fuel chain v (some c) config ≡ done (some d)
      → (resolved : ResolvedCallBaseTypeConfig) × (resolve_callbase_config use_heapallocsite
            (some c)
            config
          ≡ some resolved)
        × Resolved chain v resolved d
        × (is_auto config.dataflow ≡ false → has_value d.entry_type ≡ true)
  unfolding type_for_call
  type_for_call-Resolved fuel chain v c config d h =
      elim (Option-cases (resolve_callbase_config use_heapallocsite (some c) config)) [
        | inl n ↦
            let m : none ≡ some d = done-injective none (some d) (rw (n, type_for_call) at h) in cc
        | inr (resolved, e) ↦
            let h' = rw (e, type_for_call) at h in
            let (result, made, rest) =
              >>=-eq-done
                (type_for_resolved_callbase use_heapallocsite g ir finder fuel chain v c resolved) _
                h' in
            let (same, typed) = keep_typed_lem config.dataflow result d (done-injective _ _ rest) in
            (
              resolved,
              e,
              type_for_resolved_callbase-Resolved fuel chain v c resolved d (made ∙ ap done same),
              typed,
            )
      ]
