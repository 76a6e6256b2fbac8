-- ===== src/TypeExtractor/Knot.antt =====
-- lib/type/Dimeta.cpp, DIRootType.cpp and DITypeExtractor.cpp call one another: type_for asks find_type,
-- this find_type_root, and this both of the former. Here they are put together.
use llvm_dimeta.Base.{Outcome, out_of_fuel, ℕ, zero, suc, Bool, Option, some}
use llvm_dimeta.Metadata.{Metadata, Ptr}
use llvm_dimeta.Ir.{ValueId, Call, Ir}
use llvm_dimeta.ValuePath.{ValuePath}
use llvm_dimeta.Calls.{auto_dataflow, CallBaseTypeConfig, DimetaData, Finder}
use llvm_dimeta.Calls.TypeFor.{type_for_call}
use llvm_dimeta.RootType.{find_type_root}
use llvm_dimeta.DiFinder.{
  DebugRecords, find_local_variable, find_location, get_array_access_assignment,
}
use llvm_dimeta.Tbaa.{TbaaData}
use llvm_dimeta.TypeExtractor.FindType.{find_type_from}

-- The program as the library reads it, and the options of the build
pub record Program : Type 0 where
  pub metadata : Metadata
  pub ir : Ir
  pub records : DebugRecords
  pub tbaa : TbaaData
  pub strip_pointer_casts : ValueId → ValueId
  pub use_tbaa : Bool
  pub use_heapallocsite : Bool

-- CallBaseTypeConfig{}
abbrev pub default_config : CallBaseTypeConfig
default_config = record { dataflow = auto_dataflow; argument_index = 0; pointer_level_offset = 0 }

-- `fuel` is that of the searches, `chain` of the loops along base types, `walk` of the traversals.
module _ (program : Program) (fuel chain walk : ℕ) where
  abbrev pub finder_of : (Option ValueId → ValuePath → Outcome (Option Ptr)) → Finder
  finder_of find = record {
    find_type = find;
    find_local_variable = find_local_variable program.ir program.records;
    find_location = find_location program.ir program.records;
    get_array_access_assignment = get_array_access_assignment program.ir program.records;
  }

  abbrev pub type_for_with :
      (Option ValueId → ValuePath → Outcome (Option Ptr))
      → ValueId
      → Call
      → CallBaseTypeConfig
      → Outcome (Option DimetaData)
  type_for_with find v c config =
      type_for_call program.use_heapallocsite program.metadata program.ir (finder_of find) fuel
        chain v (some c) config

  -- The depth is that of the calls from one of the three to another.
  unfoldable pub find_type : ℕ → Option ValueId → ValuePath → Outcome (Option Ptr)
  unfolding type_for_call find_type_root find_type_from
  find_type zero c path = out_of_fuel
  find_type (suc depth) c path =
      let find = find_type depth in
      find_type_from program.use_tbaa program.tbaa program.metadata program.ir chain walk
        program.strip_pointer_casts
        (find_type_root program.metadata program.ir (finder_of find) fuel
          (λ v call. type_for_with find v call default_config) (suc depth) c path)
        c path

  -- type_for of a call, with the whole library below it
  unfoldable pub type_for : ℕ → ValueId → Call → CallBaseTypeConfig → Outcome (Option DimetaData)
  unfolding type_for_call find_type
  type_for depth v c config = type_for_with (find_type depth) v c config
