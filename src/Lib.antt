-- ===== src/Lib.antt =====
-- llvm-dimeta finds the type of an allocation in LLVM's intermediate representation from the debug
-- metadata. From an allocation call a dataflow search goes forwards to the anchors, such as the store
-- of the pointer, and from these backwards to a variable, whose metadata give the type; getelementptr
-- operations on the way select a member. This library models that core.
--
-- How the files correspond to the code:
--   ValuePath: lib/type/ValuePath.h. DefUse: lib/type/DefUseAnalysis.h, the search along def-use
--     chains, in DefUse/Sound, Complete and Termination what it visits and that it ends.
--   Dataflow: lib/type/DataflowAnalysis.cpp, the matchers and searches of type_for_heap_call and
--     path_from_value; Dataflow/Fortran: shape_from_value, passed_to_fortran_helper, get_as_int.
--   Visitor: lib/type/DIVisitor.h, the traversal of the metadata graph; a subclass is a record of
--     hooks.
--   DiUtil: lib/type/DIUtil.cpp; DiUtil/ByteOffset: resolve_byte_offset_to_member_of, a visitor.
--   Gep: lib/type/GEP.cpp; Gep/Iterate: iterate_gep_index; Gep/Extract: extract_gep_dereferenced_type,
--     and is_fortran_descriptor of lib/type/DIFortranTypeExtractor.cpp.
--   RootType: lib/type/DIRootType.cpp, the type of the value that a path ends in.
--   DiFinder: lib/type/DIFinder.cpp, the variable of a value by the debug records of LLVM 19 and later.
--   Tbaa: lib/type/TBAA.cpp, access tags; Tbaa/Resolve: resolve_tbaa.
--   TypeExtractor: lib/type/DITypeExtractor.cpp, what a load (TypeExtractor/Load) and a store
--     (TypeExtractor/Store) do to a type; TypeExtractor/FindType: reset_ditype and find_type;
--     TypeExtractor/FortranType: lib/type/DIFortranTypeExtractor.cpp and DIPath.cpp;
--     TypeExtractor/Knot: type_for, find_type_root and find_type, which call one another, put together.
--   MemoryOps: lib/type/MemoryOps.h. Calls: lib/type/Dimeta.cpp, type_for and final_ditype.
--   Parser: lib/type/DIParser.cpp, visit_node, a visitor that raises events; here it collects them.
--   DimetaParse: lib/type/DimetaParse.cpp, the handler of the events; it takes them after the
--     traversal, in their order, where the code calls it during the traversal. DimetaParse/Stack: what
--     it builds; DimetaParse/Handler: the events. DimetaParse/Builder is its abstract description: a
--     recursive function over the events as trees, without a stack.
--   CompileUnits: compile_unit_types and the type_for of a value in lib/type/Dimeta.cpp;
--     CompileUnits/ReadBack: with the parser and the documents.
--   DimetaIo: lib/type/DimetaIO.cpp, the mapping to YAML documents (DimetaIo/Emit) and back
--     (DimetaIo/Read).
--   QualifiedType: lib/type/DimetaData.h. SourceLoc: lib/type/SourceLocType.cpp, located_type_for.
--   Pass: lib/pass/DimetaPass.cpp, the types that the plugin prints.
--   Metadata and Ir: what the code reads of llvm::DINode and llvm::Value. A node or a value is named by
--     a number, which stands for the pointer; a pointer that may be null is an optional number.
--   Base: what the files share. `Outcome` is a run's result, a fault (a null pointer, a failed
--     assertion, an index out of range) or the end of the fuel. Examples: the theorems at a small
--     program.
--
-- The code's member functions keep their names, in lower case with underscores. Mutable state is a
-- record that is passed on: `Walk` for the visitor, `Work` for the search, a list for a matcher. The
-- callbacks' captured variables are the state that the search threads through them.
--
-- Fuel: the traversal takes one unit for each level of its recursion, and `size * (top + 2) + top + 1`
-- are enough on a graph of `size` nodes whose acyclic part has ranks up to `top` (Visitor/Termination).
-- The search takes one unit for each path that it pops, and more than `fresh_cost` are enough, which allows
-- for values that are pushed several times before they are seen (DefUse/Cost, DefUse/Termination). Loops
-- along base types take one unit for each step, `HasEnd` says that the chain ends in time. Sizes and
-- offsets in bits are natural numbers, sums of bytes are taken modulo 2^64, an int modulo 2^32.
--
-- The calls between the parts, from find_type to find_type_root to type_for, have a depth; a document
-- is read with fuel for the compounds in it.
--
-- Options: TBAA is used if `use_tbaa` (DIMETA_USE_TBAA) is set, the metadata heapallocsite if
-- `use_heapallocsite` is. The field use_type of a result in lib/type/GEP.h is never set and is left
-- out. stripPointerCasts of LLVM, which MemCpyInst::getSource calls, is a parameter.
--
-- Not modelled: logging, the printing of metadata, the registration of the plugin, the syntax of YAML
-- documents, which the LLVM library reads and writes, and its errors for unknown keys; a document is a
-- tree, a reader's error is no result. The definitions of Calls and RootType take find_type and the
-- finder's functions as the record `Finder`, which TypeExtractor/Knot fills; SourceLoc takes the parser
-- as an argument, which SourceLoc/ReadBack gives.
pub mod Base
pub mod Metadata
pub mod DiUtil
pub mod Visitor
pub mod Ir
pub mod Gep
pub mod ValuePath
pub mod DefUse
pub mod Dataflow
pub mod MemoryOps
pub mod Calls
pub mod RootType
pub mod Parser
pub mod QualifiedType
pub mod SourceLoc
pub mod DimetaParse
pub mod DiFinder
pub mod Tbaa
pub mod TypeExtractor
pub mod CompileUnits
pub mod DimetaIo
pub mod Pass
pub mod Examples
