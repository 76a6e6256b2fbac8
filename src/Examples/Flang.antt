-- ===== src/Examples/Flang.antt =====
-- The properties of the searches for Fortran at a small program.
use llvm_dimeta.Base.{get_or, refl, true, none, some, List, [], ◌∷◌}
use llvm_dimeta.Ir.{
  no_intrinsic, Value, alloca, load, call, global_var, constant_int, other_value, Ir,
}
use llvm_dimeta.ValuePath.{value, extend}
use llvm_dimeta.DefUse.{
  add_to_work_s, add_to_work, apply_search_direction, do_traverse, traverse_custom, traverse,
}
use llvm_dimeta.Dataflow.{backtrack_operands, malloc_backtrack_search}
use llvm_dimeta.Dataflow.Fortran.{
  to_int, read_initializer, match_global, get_as_int, match_helper, passed_to_fortran_helper,
}
use llvm_dimeta.Dataflow.Number.{IsNumber, get_as_int-IsNumber}
use llvm_dimeta.Dataflow.Flang.{ToHelper, passed_to_fortran_helper-ToHelper}

-- 0 is an alloca that the call 1 is given; 2 loads the global variable 3, whose initializer is 4. The call
-- 6 sets the bounds 1 and 12 of the array 5.
abbrev values : List Value
values =
    alloca
    ∷ call true (record {
      arguments = 0 ∷ [];
      callee = some (record { name = "_FortranAioOutputDescriptor"; subprogram = none });
      intrinsic = no_intrinsic;
      heapallocsite = none;
    })
    ∷ load 3
    ∷ global_var (record { variable = none; initializer = some 4 })
    ∷ constant_int 64 12
    ∷ alloca
    ∷ call true (record {
      arguments = 5 ∷ 7 ∷ 8 ∷ 4 ∷ [];
      callee = some (record { name = "_FortranAAllocatableSetBounds"; subprogram = none });
      intrinsic = no_intrinsic;
      heapallocsite = none;
    })
    ∷ constant_int 64 0
    ∷ constant_int 64 1
    ∷ []

abbrev fortran_program : Ir
fortran_program = record {
  value = λ v. get_or values v other_value;
  users = λ v. get_or ((1 ∷ []) ∷ [] ∷ [] ∷ (2 ∷ []) ∷ (3 ∷ []) ∷ (6 ∷ []) ∷ []) v [];
  debug_loc = λ v. none;
}

passed_to_fortran_helper-ToHelper_example : ToHelper fortran_program 0
unfolding passed_to_fortran_helper traverse traverse_custom do_traverse apply_search_direction
    add_to_work add_to_work_s value extend match_helper
passed_to_fortran_helper-ToHelper_example =
    passed_to_fortran_helper-ToHelper fortran_program 0 9 refl

get_as_int-IsNumber_example : IsNumber fortran_program 2 12
unfolding get_as_int to_int read_initializer traverse_custom do_traverse apply_search_direction
    add_to_work add_to_work_s value extend match_global malloc_backtrack_search backtrack_operands
get_as_int-IsNumber_example = get_as_int-IsNumber fortran_program 2 9 12 refl
