-- ===== src/Calls/TypeFor.antt =====
-- The overloads of type_for in lib/type/Dimeta.cpp, and what they call.
use llvm_dimeta.Base.{
  if◌then◌else◌, failed_assertion, Outcome, done, fault, out_of_fuel, ◌>>=◌, deref, index, ℕ, ◌+◌,
  ◌%◌, ◌^◌, Bool, Option, none, some, List, [], ◌∷◌,
}
use llvm_dimeta.Metadata.{local_variable, global_variable, Metadata, as_composite, Ptr}
use llvm_dimeta.Ir.{ValueId, Call, Value, global_var, Ir}
use llvm_dimeta.ValuePath.{ValuePath}
use llvm_dimeta.Dataflow.{type_for_heap_call, path_from_value}
use llvm_dimeta.Dataflow.Fortran.{IndexDim, shape_from_value, passed_to_fortran_helper}
use llvm_dimeta.Calls.{
  return_value_forward_then_backward, argument_backward, fortran_descriptor, heap_alloc_site,
  ResolvedCallBaseTypeConfig, CallBaseTypeConfig, stack, heap, global, DimetaData, FortranType,
  Finder, resolve_callbase_config, keep_typed, final_ditype,
}

module _ (use_heapallocsite : Bool) (g : Metadata) (ir : Ir) (finder : Finder) where
  -- What the model's `find_type` finds on each path, in order; paths without a type are left out.
  unfoldable pub collect_types : Option ValueId → List ValuePath → Outcome (List Ptr)
  collect_types c [] = done []
  collect_types c (p ∷ ps) = do
    t ← finder.find_type c p
    ts ← collect_types c ps
    done (elim t [ none ↦ ts | some x ↦ x ∷ ts ])

  abbrev pub first_type : List Ptr → Option Ptr
  first_type [] = none
  first_type (t ∷ ts) = some t

  abbrev pub with_fuel {ℓ} : {A : Type ℓ} → Option A → Outcome A
  with_fuel none = out_of_fuel
  with_fuel (some a) = done a

  unfoldable pub type_for_malloclike : ℕ → ValueId → Outcome (Option Ptr)
  unfolding type_for_heap_call collect_types
  type_for_malloclike fuel c = elim (finder.get_array_access_assignment c) [
    | some local ↦ do
      v ← elim (g local.var) [ local_variable v ↦ done v | _ ↦ fault failed_assertion ]
      if local.array_access
          then (do
            t ← deref v.type
            done (elim (as_composite (g t)) [ some a ↦ some a.base_type | none ↦ some (some t) ]))
          else done (some v.type)
    | none ↦ do
      paths ← with_fuel (type_for_heap_call ir fuel c)
      types ← collect_types (some c) paths
      done (first_type types)
  ]

  -- The metadata `heapallocsite` must be there; it may be no type.
  unfoldable pub type_for_newlike : Call → Outcome (Option Ptr)
  type_for_newlike c = elim c.heapallocsite [
    | none ↦ fault failed_assertion
    | some md ↦ done (elim md [ none ↦ none | some t ↦ some (some t) ])
  ]

  -- experimental::di_type_for
  unfoldable pub di_type_for : ℕ → ValueId → Outcome (Option Ptr)
  unfolding path_from_value collect_types
  di_type_for fuel v = do
    paths ← with_fuel (path_from_value ir fuel v)
    types ← collect_types none paths
    done (first_type types)

  -- fortran::di_type_for
  unfoldable pub fortran_di_type_for : ℕ → ValueId → ValueId → Outcome (Option FortranType)
  unfolding shape_from_value path_from_value collect_types
  fortran_di_type_for fuel v c = do
    shape ← shape_from_value ir fuel v
    paths ← with_fuel (path_from_value ir fuel v)
    types ← collect_types (some c) paths
    done (elim types [ [] ↦ none | t ∷ ts ↦ some (record { type = t; shape_argument = shape }) ])

  -- The type and the shape that the switch of type_for_resolved_callbase extracts; none where it
  -- returns early.
  unfoldable pub extract_for_callbase :
      ℕ
      → ValueId
      → Call
      → ResolvedCallBaseTypeConfig
      → Outcome (Option (Option Ptr × Option (List IndexDim)))
  unfolding type_for_malloclike type_for_newlike di_type_for fortran_di_type_for
  extract_for_callbase fuel v c config = elim config.source [
    | argument_backward ↦ do
      a ← index c.arguments config.argument_index
      t ← di_type_for fuel a
      done (some (t, none))
    | return_value_forward_then_backward ↦ do t ← type_for_malloclike fuel v; done (some (t, none))
    | fortran_descriptor ↦ elim c.arguments [
      | [] ↦ done none
      | a ∷ others ↦ do
        t ← fortran_di_type_for fuel a v
        done (some (elim t [ none ↦ (none, none) | some f ↦ (some f.type, f.shape_argument) ]))
    ]
    | heap_alloc_site ↦ do t ← type_for_newlike c; done (some (t, none))
  ]

  -- The end of type_for_resolved_callbase: the final type of what was extracted
  unfoldable pub heap_data :
      ℕ
      → ValueId
      → ResolvedCallBaseTypeConfig
      → Option Ptr × Option (List IndexDim)
      → Outcome DimetaData
  unfolding final_ditype
  heap_data chain v config e = do
    r ← final_ditype g chain e.0
    done (record {
      memory_location = heap;
      di_variable = none;
      entry_type = e.0;
      base_type = r.0;
      di_location = finder.find_location v;
      shape_descriptor = e.1;
      pointer_level = (r.1 + config.pointer_level_offset) % 2 ^ 32;
    })

  unfoldable pub type_for_resolved_callbase :
      ℕ → ℕ → ValueId → Call → ResolvedCallBaseTypeConfig → Outcome (Option DimetaData)
  unfolding extract_for_callbase heap_data
  type_for_resolved_callbase fuel chain v c config = do
    extracted ← extract_for_callbase fuel v c config
    elim extracted [ none ↦ done none | some e ↦ do d ← heap_data chain v config e; done (some d) ]

  -- type_for of a call base
  unfoldable pub type_for_call :
      ℕ → ℕ → ValueId → Option Call → CallBaseTypeConfig → Outcome (Option DimetaData)
  unfolding resolve_callbase_config type_for_resolved_callbase
  type_for_call fuel chain v none config = done none
  type_for_call fuel chain v (some c) config =
      elim (resolve_callbase_config use_heapallocsite (some c) config) [
        | none ↦ done none
        | some resolved ↦ do
          result ← type_for_resolved_callbase fuel chain v c resolved
          done (keep_typed config.dataflow result)
      ]

  -- type_for of an alloca
  unfoldable pub type_for_alloca : ℕ → ℕ → ValueId → Outcome (Option DimetaData)
  unfolding passed_to_fortran_helper final_ditype
  type_for_alloca fuel chain ai = do
    passed ← with_fuel (passed_to_fortran_helper ir fuel ai)
    if passed then done none else elim (finder.find_local_variable ai) [
      | none ↦ done none
      | some n ↦ elim (g n) [
        | local_variable var ↦ do
          r ← final_ditype g chain (some var.type)
          done (
              some (record {
                memory_location = stack;
                di_variable = some n;
                entry_type = some var.type;
                base_type = r.0;
                di_location = finder.find_location ai;
                shape_descriptor = none;
                pointer_level = r.1;
              }))
        | _ ↦ fault failed_assertion
      ]
    ]

  -- type_for of a global variable: its first debug expression
  unfoldable pub type_for_global : ℕ → Value → Outcome (Option DimetaData)
  unfolding final_ditype
  type_for_global chain (global_var gv) = elim gv.variable [
    | none ↦ done none
    | some n ↦ elim (g n) [
      | global_variable var ↦ do
        r ← final_ditype g chain (some var.type)
        done (
            some (record {
              memory_location = global;
              di_variable = some n;
              entry_type = some var.type;
              base_type = r.0;
              di_location = none;
              shape_descriptor = none;
              pointer_level = r.1;
            }))
      | _ ↦ fault failed_assertion
    ]
  ]
  type_for_global chain v = done none
