-- ===== src/CompileUnits.antt =====
-- lib/type/Dimeta.cpp: compile_unit_types, and experimental::type_for of a value.
pub mod ReadBack
use llvm_dimeta.Base.{
  if◌then◌else◌, Outcome, done, ◌>>=◌, ◌>>◌, deref, ℕ, String, Bool, true, false, Option, none,
  some, List, [], ◌∷◌,
}
use llvm_dimeta.Metadata.{
  NodeId, DiNode, basic, derived, composite, string_type, subroutine, Metadata, Ptr,
}
use llvm_dimeta.Ir.{ValueId, Ir}
use llvm_dimeta.Dataflow.{path_from_value}
use llvm_dimeta.Calls.{Finder}
use llvm_dimeta.Calls.TypeFor.{collect_types, with_fuel}
use llvm_dimeta.QualifiedType.{QualifiedType}
use llvm_dimeta.DimetaParse.Handler.{make_dimetadata}

-- llvm::DICompileUnit: its file, and its retained types, some of which are no types
pub record CompileUnit : Type 0 where
  pub filename : String
  pub retained_types : List NodeId

pub record CompileUnitTypes : Type 0 where
  pub name : String
  pub types : List QualifiedType

abbrev pub is_di_type : DiNode → Bool
is_di_type (basic b) = true
is_di_type (derived d) = true
is_di_type (composite c) = true
is_di_type (string_type n s) = true
is_di_type (subroutine ts) = true
is_di_type _ = false

module _ (g : Metadata) (walk : ℕ) where
  -- The inner loop: a node that is no type, or has no result, is left out.
  unfoldable pub unit_types : List NodeId → Outcome (List QualifiedType)
  unfolding make_dimetadata
  unit_types [] = done []
  unit_types (n ∷ ns) =
      let rest = unit_types ns in
      if is_di_type (g n)
      then (do
        dimeta_result ← make_dimetadata g walk n
        types ← rest
        done (elim dimeta_result [ none ↦ types | some t ↦ t ∷ types ]))
      else rest

  unfoldable pub units : List CompileUnit → Outcome (List CompileUnitTypes)
  unfolding unit_types
  units [] = done []
  units (u ∷ us) = do
    types ← unit_types u.retained_types
    rest ← units us
    done (record { name = u.filename; types = types } ∷ rest)

  unfoldable pub compile_unit_types : List CompileUnit → Outcome (Option (List CompileUnitTypes))
  unfolding units
  compile_unit_types module_units = do
    list ← units module_units
    done (elim list [ [] ↦ none | u ∷ us ↦ some (u ∷ us) ])

  -- The loop over the types that were found: the first that has a result
  unfoldable pub first_parsed : List Ptr → Outcome (Option QualifiedType)
  unfolding make_dimetadata
  first_parsed [] = done none
  first_parsed (t ∷ ts) = do
    n ← deref t
    dimeta_result ← make_dimetadata g walk n
    elim dimeta_result [ some r ↦ done (some r) | none ↦ first_parsed ts ]

  -- experimental::type_for
  unfoldable pub type_for_value : Bool → Ir → Finder → ℕ → ValueId → Outcome (Option QualifiedType)
  unfolding path_from_value collect_types first_parsed
  type_for_value use_heapallocsite ir finder fuel v = do
    paths ← with_fuel use_heapallocsite g ir finder (path_from_value ir fuel v)
    types ← collect_types use_heapallocsite g ir finder none paths
    first_parsed types
