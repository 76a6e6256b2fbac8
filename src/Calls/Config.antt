-- ===== src/Calls/Config.antt =====
-- How lib/type/Dimeta.cpp chooses the way to the type of an allocation call.

use llvm_dimeta.Ir.{Call}
use llvm_dimeta.Base.{
  leb, if◌then◌else◌, Bool-cases, Option-cases, has_value, length, ℕ, ◌<◌, ◌≡◌, refl, subst, inl,
  inr, Bool, true, false, ◌&&◌, Option, none, some, some-injective, arith,
}
use llvm_dimeta.MemoryOps.{
  MemOpKind, new_like, malloc_like, aligned_alloc_like, calloc_like, realloc_like, new_cpp_like,
  cuda_malloc_like, fortran_malloc_like, mpi_malloc_like, flag_word, has_flag, alloc_kind, is_alloc,
  is_new_like, is_cuda_like, is_fortran_like, is_mpi_like,
}
use llvm_dimeta.Calls.{
  CallBaseTypeSource, return_value_forward_then_backward, argument_backward, fortran_descriptor,
  heap_alloc_site, ResolvedCallBaseTypeConfig, Dataflow, auto_dataflow, return_value_dataflow,
  argument_dataflow, CallBaseTypeConfig, is_auto, resolve_auto_callbase_config,
  resolve_callbase_config,
}

abbrev plain_config : CallBaseTypeSource → ℕ → ResolvedCallBaseTypeConfig
plain_config source i = record { source = source; argument_index = i; pointer_level_offset = 0 }

abbrev new_config : Bool → ResolvedCallBaseTypeConfig
new_config site =
    if site
    then record { source = heap_alloc_site; argument_index = 0; pointer_level_offset = 1 }
    else plain_config return_value_forward_then_backward 0

-- The way for each kind of allocation function, `site` telling whether the metadata heapallocsite is
-- there and used.
pub config_of_kind : Bool → MemOpKind → ResolvedCallBaseTypeConfig
config_of_kind site fortran_malloc_like = plain_config fortran_descriptor 0
config_of_kind site cuda_malloc_like = plain_config argument_backward 0
config_of_kind site mpi_malloc_like = plain_config argument_backward 2
config_of_kind site new_like = new_config site
config_of_kind site new_cpp_like = new_config site
config_of_kind site malloc_like = plain_config return_value_forward_then_backward 0
config_of_kind site aligned_alloc_like = plain_config return_value_forward_then_backward 0
config_of_kind site calloc_like = plain_config return_value_forward_then_backward 0
config_of_kind site realloc_like = plain_config return_value_forward_then_backward 0

-- Whether the build uses the metadata heapallocsite and the call has it
abbrev pub uses_site : Bool → Call → Bool
uses_site use_heapallocsite c = use_heapallocsite && has_value c.heapallocsite

-- The chain of tests of resolve_auto_callbase_config, by the kind that the name has
abbrev test_flags : MemOpKind → Bool → Bool → Option ResolvedCallBaseTypeConfig
test_flags kind use_heapallocsite site =
    if has_flag kind fortran_malloc_like
    then some (plain_config fortran_descriptor 0)
    else if has_flag kind cuda_malloc_like
    then some (plain_config argument_backward 0)
    else if has_flag kind mpi_malloc_like
    then some (plain_config argument_backward 2)
    else if use_heapallocsite && (has_flag kind new_cpp_like && site)
    then some (record { source = heap_alloc_site; argument_index = 0; pointer_level_offset = 1 })
    else some (plain_config return_value_forward_then_backward 0)

test_flags_lem :
    (kind : MemOpKind) (a b : Bool) → test_flags kind a b ≡ some (config_of_kind (a && b) kind)
unfolding has_flag flag_word config_of_kind
test_flags_lem fortran_malloc_like a b = refl
test_flags_lem cuda_malloc_like a b = refl
test_flags_lem mpi_malloc_like a b = refl
test_flags_lem new_like true true = refl
test_flags_lem new_like true false = refl
test_flags_lem new_like false b = refl
test_flags_lem new_cpp_like true true = refl
test_flags_lem new_cpp_like true false = refl
test_flags_lem new_cpp_like false b = refl
test_flags_lem malloc_like true b = refl
test_flags_lem malloc_like false b = refl
test_flags_lem aligned_alloc_like true b = refl
test_flags_lem aligned_alloc_like false b = refl
test_flags_lem calloc_like true b = refl
test_flags_lem calloc_like false b = refl
test_flags_lem realloc_like true b = refl
test_flags_lem realloc_like false b = refl

-- The automatic way is decided by the kind of the called function alone (and, for new, by whether the
-- metadata heapallocsite is used): a call of an unknown function or of no allocation function has none.
pub resolve_auto_callbase_config_lem :
    (use_heapallocsite : Bool) (c : Call)
    → resolve_auto_callbase_config use_heapallocsite (some c) ≡ elim c.callee [
      | none ↦ none
      | some f ↦ elim (alloc_kind f.name) [
        | none ↦ none
        | some kind ↦ some (config_of_kind (uses_site use_heapallocsite c) kind)
      ]
    ]
unfolding resolve_auto_callbase_config is_alloc is_fortran_like is_cuda_like is_mpi_like is_new_like
resolve_auto_callbase_config_lem use_heapallocsite c = elim (Option-cases c.callee) [
  | inl e ↦ rw (e, resolve_auto_callbase_config)
  | inr (f, e) ↦ elim (Option-cases (alloc_kind f.name)) [
    | inl k ↦ rw (e, resolve_auto_callbase_config) (rw (k, is_alloc))
    | inr (kind, k) ↦
        rw (e, resolve_auto_callbase_config)
          (rw (k, is_alloc, is_fortran_like, is_cuda_like, is_mpi_like, is_new_like)
            (test_flags_lem kind use_heapallocsite (has_value c.heapallocsite)))
  ]
]

abbrev InRange : Call → ℕ → ResolvedCallBaseTypeConfig → Type 0
InRange c offset r =
    (r.source ≡ argument_backward → r.argument_index < length c.arguments)
    × (r.pointer_level_offset ≡ offset)

explicit-InRange :
    (use_heapallocsite : Bool) (c : Call) (d : Dataflow) (i o : ℕ) (r : ResolvedCallBaseTypeConfig)
    → is_auto d ≡ false
    → resolve_callbase_config use_heapallocsite
        (some c)
        (record { dataflow = d; argument_index = i; pointer_level_offset = o })
      ≡ some r
    → InRange c o r
unfolding resolve_callbase_config
explicit-InRange use_heapallocsite c auto_dataflow i o r explicit e = cc
explicit-InRange use_heapallocsite c return_value_dataflow i o r explicit e =
    subst (InRange c o) (some-injective _ r e) (λ h. cc, refl)
explicit-InRange use_heapallocsite c argument_dataflow i o r explicit e =
    elim (Bool-cases (leb (length c.arguments) i)) [
      | inl over ↦ let n : none ≡ some r = rw over at e in cc
      | inr within ↦
          subst (InRange c o) (some-injective _ r (rw within at e)) (λ h. ground arith, refl)
    ]

-- An explicit configuration that is accepted has an argument index within the call's arguments, if its
-- source is an argument, and keeps the pointer level offset.
pub resolve_callbase_config-InRange :
    (use_heapallocsite : Bool) (c : Call) (config : CallBaseTypeConfig)
    (r : ResolvedCallBaseTypeConfig)
    → is_auto config.dataflow ≡ false
    → resolve_callbase_config use_heapallocsite (some c) config ≡ some r
    → (r.source ≡ argument_backward → r.argument_index < length c.arguments)
      × (r.pointer_level_offset ≡ config.pointer_level_offset)
resolve_callbase_config-InRange use_heapallocsite c config r explicit e =
    explicit-InRange use_heapallocsite c config.dataflow config.argument_index
      config.pointer_level_offset r explicit e
