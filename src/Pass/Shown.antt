-- ===== src/Pass/Shown.antt =====
-- What the pass of lib/pass/DimetaPass.cpp prints.

use llvm_dimeta.Calls.TypeFor.{with_fuel, type_for_alloca}
use llvm_dimeta.Calls.Result.{type_for_call-Resolved}
use llvm_dimeta.TypeExtractor.Knot.{Program, default_config, finder_of, find_type, type_for}
use llvm_dimeta.Ir.{ValueId, Call, Value, alloca, call, Ir}
use llvm_dimeta.Pass.{
  Line, function_line, rule, heap_type, stack_type, Function, line_of, alloca_type, lines_for,
  lines_at, lines_of, run_on_func, run,
}
use llvm_dimeta.Base.{
  Option-cases, if_intro, All, All-append, failed_assertion, done, fault, ◌>>=◌, Post, >>=-Post,
  >>=-Post_second, >>=-Post_eq, Post-done, ℕ, ◌≡◌, refl, inl, inr, Bool, Option, none, some, List,
  [], ◌∷◌,
}
use llvm_dimeta.Metadata.{NodeId, DiNode, local_variable, Metadata}
use llvm_dimeta.Dataflow.Fortran.{passed_to_fortran_helper}
use llvm_dimeta.Calls.{stack, DimetaData, Finder, final_ditype}
use llvm_dimeta.Pass.Final.{IsLast, line_of-All, SomeFinal}

module _ (use_heapallocsite : Bool) (g : Metadata) (ir : Ir) (finder : Finder) where
  of_variable :
      (chain : ℕ) (ai : ValueId) (n : NodeId) (x : DiNode)
      → Post (SomeFinal g chain) (elim x [
        | local_variable var ↦ do
          r ← final_ditype g chain (some var.type)
          done (
              some (record {
                memory_location = stack;
                di_variable = some n;
                entry_type = some var.type;
                base_type = r.0;
                di_location = finder.find_location ai;
                shape_descriptor = none;
                pointer_level = r.1;
              }))
        | _ ↦ fault failed_assertion
      ])
  of_variable chain ai n (local_variable var) =
      >>=-Post_eq (SomeFinal g chain) (final_ditype g chain (some var.type)) _ λ r e. (r.1, e)
  of_variable chain ai n _ = tt

  type_for_alloca-SomeFinal :
      (fuel chain : ℕ) (ai : ValueId)
      → Post (SomeFinal g chain) (type_for_alloca use_heapallocsite g ir finder fuel chain ai)
  unfolding type_for_alloca
  type_for_alloca-SomeFinal fuel chain ai =
      >>=-Post_second (SomeFinal g chain)
        (with_fuel use_heapallocsite g ir finder (passed_to_fortran_helper ir fuel ai)) _
        λ passed.
          if_intro (Post (SomeFinal g chain)) passed tt
            (elim (Option-cases (finder.find_local_variable ai)) [
              | inl e ↦ rw e tt
              | inr (n, e) ↦ rw e (of_variable chain ai n (g n))
            ])

module _ (program : Program) (fuel chain walk depth : ℕ) where
  -- A line with a type tells the base type that type_for returned for a call or an alloca, and that is no
  -- derived type, or one without a base type.
  abbrev pub IsTold : Line → Type 0
  IsTold (function_line name) = Unit
  IsTold rule = Unit
  IsTold (heap_type n) =
      (v : ValueId) × (b : Bool) × (c : Call) × (d : DimetaData) × (program.ir.value v ≡ call b c)
      × (type_for program fuel chain walk depth v c default_config ≡ done (some d))
      × (d.base_type ≡ some (some n))
      × IsLast program.metadata n
  IsTold (stack_type n) =
      (v : ValueId) × (d : DimetaData) × (program.ir.value v ≡ alloca)
      × (alloca_type program fuel chain walk depth v ≡ done (some d))
      × (d.base_type ≡ some (some n))
      × IsLast program.metadata n

  by_call :
      (v : ValueId) (b : Bool) (c : Call)
      → program.ir.value v ≡ call b c
      → (found : Option DimetaData)
      → type_for program fuel chain walk depth v c default_config ≡ done found
      → Post (All IsTold) (line_of program.metadata chain heap_type found)
  unfolding type_for line_of
  by_call v b c i none e = tt
  by_call v b c i (some d) e =
      let (resolved, config, r, typed) =
        type_for_call-Resolved program.use_heapallocsite program.metadata program.ir
          (finder_of program fuel chain walk (find_type program fuel chain walk depth)) fuel chain v
          c default_config d e in
      line_of-All program.metadata IsTold chain heap_type d (r.level, r.final)
        λ n base last. (v, b, c, d, i, e, base, last)

  by_alloca :
      (v : ValueId)
      → program.ir.value v ≡ alloca
      → (found : Option DimetaData) → alloca_type program fuel chain walk depth v ≡ done found
      → Post (All IsTold) (line_of program.metadata chain stack_type found)
  unfolding line_of
  by_alloca v i none e = tt
  by_alloca v i (some d) e =
      line_of-All program.metadata IsTold chain stack_type d
        (Post-done (SomeFinal program.metadata chain) (alloca_type program fuel chain walk depth v)
          (type_for_alloca-SomeFinal program.use_heapallocsite program.metadata program.ir
            (finder_of program fuel chain walk (find_type program fuel chain walk depth)) fuel chain
            v)
          e)
        λ n base last. (v, d, i, e, base, last)

  lines_for-All :
      (v : ValueId) (x : Value)
      → program.ir.value v ≡ x
      → Post (All IsTold) (lines_for program fuel chain walk depth v x)
  unfolding lines_for
  lines_for-All v (call b c) i =
      >>=-Post_eq (All IsTold) (type_for program fuel chain walk depth v c default_config) _
        (by_call v b c i)
  lines_for-All v alloca i =
      >>=-Post_eq (All IsTold) (alloca_type program fuel chain walk depth v) _ (by_alloca v i)
  lines_for-All v _ i = tt

  lines_of-All : (vs : List ValueId) → Post (All IsTold) (lines_of program fuel chain walk depth vs)
  unfolding lines_of
  lines_of-All [] = tt
  lines_of-All (v ∷ vs) =
      >>=-Post (All IsTold) (All IsTold) (lines_at program fuel chain walk depth v) _
        (lines_for-All v (program.ir.value v) refl)
        λ ls h.
          >>=-Post (All IsTold) (All IsTold) (lines_of program fuel chain walk depth vs) _
            (lines_of-All vs) λ rest k. All-append IsTold ls rest h k

  run_on_func-All : (f : Function) → Post (All IsTold) (run_on_func program fuel chain walk depth f)
  unfolding run_on_func
  run_on_func-All f = if_intro (Post (All IsTold)) f.is_declaration tt (
      >>=-Post (All IsTold) (All IsTold) (lines_of program fuel chain walk depth f.instructions) _
        (lines_of-All f.instructions)
        λ ls h. (tt, (tt, All-append IsTold ls (rule ∷ []) h (tt, tt))))

  -- Each type that the pass prints is the base type that type_for returned for a call or an alloca of the
  -- program, and is no derived type, or one without a base type.
  pub run-IsTold : (fs : List Function) → Post (All IsTold) (run program fuel chain walk depth fs)
  unfolding run
  run-IsTold [] = tt
  run-IsTold (f ∷ fs) =
      >>=-Post (All IsTold) (All IsTold) (run_on_func program fuel chain walk depth f) _
        (run_on_func-All f)
        λ ls h.
          >>=-Post (All IsTold) (All IsTold) (run program fuel chain walk depth fs) _
            (run-IsTold fs) λ rest k. All-append IsTold ls rest h k
