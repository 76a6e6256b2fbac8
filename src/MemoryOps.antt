-- ===== src/MemoryOps.antt =====
-- lib/type/MemoryOps.h: the allocation functions that are known by name, and their kinds.
use llvm_dimeta.Base.{
  ◌==◌, if◌then◌else◌, Option-cases, has_value, count_if, bit_and, ℕ, ◌≤◌, String, ◌≡◌, refl, inl,
  inr, Bool, false, not, Option, none, some, List, [], ◌∷◌, arith, str_eq,
}

-- A kind is its flag word, as the enumeration MemOpKind gives it.
pub data MemOpKind : Type 0 where
  new_like malloc_like aligned_alloc_like calloc_like realloc_like new_cpp_like : MemOpKind
  cuda_malloc_like fortran_malloc_like mpi_malloc_like : MemOpKind

unfoldable pub flag_word : MemOpKind → ℕ
flag_word new_like = 1
flag_word malloc_like = 2
flag_word aligned_alloc_like = 4
flag_word calloc_like = 8
flag_word realloc_like = 16
flag_word new_cpp_like = 33
flag_word cuda_malloc_like = 64
flag_word fortran_malloc_like = 128
flag_word mpi_malloc_like = 256

-- detail::has_value: the flag words have a bit in common.
unfoldable pub has_flag : MemOpKind → MemOpKind → Bool
unfolding flag_word
has_flag flags kind = not (bit_and (flag_word flags) (flag_word kind) == 0)

abbrev pub alloc_map : List (String × MemOpKind)
alloc_map =
    ("malloc", malloc_like)
    ∷ ("calloc", calloc_like)
    ∷ ("realloc", realloc_like)
    ∷ ("aligned_alloc", aligned_alloc_like)
    ∷ ("_Znwm", new_like)
    ∷ ("_Znwj", new_like)
    ∷ ("_Znam", new_like)
    ∷ ("_Znaj", new_like)
    ∷ ("_ZnwjRKSt9nothrow_t", new_cpp_like)
    ∷ ("_ZnwmRKSt9nothrow_t", new_cpp_like)
    ∷ ("_ZnajRKSt9nothrow_t", new_cpp_like)
    ∷ ("_ZnamRKSt9nothrow_t", new_cpp_like)
    ∷ ("_ZnwjSt11align_val_t", new_like)
    ∷ ("_ZnwjSt11align_val_tRKSt9nothrow_t", new_cpp_like)
    ∷ ("_ZnwmSt11align_val_t", new_cpp_like)
    ∷ ("_ZnwmSt11align_val_tRKSt9nothrow_t", new_cpp_like)
    ∷ ("_ZnajSt11align_val_t", new_like)
    ∷ ("_ZnajSt11align_val_tRKSt9nothrow_t", new_cpp_like)
    ∷ ("_ZnamSt11align_val_t", new_like)
    ∷ ("_ZnamSt11align_val_tRKSt9nothrow_t", new_cpp_like)
    ∷ ("cudaMalloc", cuda_malloc_like)
    ∷ ("cudaHostAlloc", cuda_malloc_like)
    ∷ ("cudaMallocHost", cuda_malloc_like)
    ∷ ("cudaMallocPitch", cuda_malloc_like)
    ∷ ("cudaMallocArray", cuda_malloc_like)
    ∷ ("cudaMalloc3D", cuda_malloc_like)
    ∷ ("cudaMalloc3DArray", cuda_malloc_like)
    ∷ ("cudaMallocManaged", cuda_malloc_like)
    ∷ ("cudaMallocFromPoolAsync", cuda_malloc_like)
    ∷ ("cudaMallocAsync", cuda_malloc_like)
    ∷ ("hipMalloc", cuda_malloc_like)
    ∷ ("hipHostMalloc", cuda_malloc_like)
    ∷ ("hipMallocHost", cuda_malloc_like)
    ∷ ("hipMallocPitch", cuda_malloc_like)
    ∷ ("hipMallocArray", cuda_malloc_like)
    ∷ ("hipMalloc3D", cuda_malloc_like)
    ∷ ("hipMalloc3DArray", cuda_malloc_like)
    ∷ ("hipMallocManaged", cuda_malloc_like)
    ∷ ("hipMallocFromPoolAsync", cuda_malloc_like)
    ∷ ("hipMallocAsync", cuda_malloc_like)
    ∷ ("hipExtMallocWithFlags", cuda_malloc_like)
    ∷ ("_FortranAAllocatableAllocate", fortran_malloc_like)
    ∷ ("_FortranAPointerAllocate", fortran_malloc_like)
    ∷ ("MPI_Alloc_mem", mpi_malloc_like)
    ∷ []

unfoldable pub find : List (String × MemOpKind) → String → Option MemOpKind
find [] function = none
find (entry ∷ entries) function =
    if str_eq entry.0 function then some entry.1 else find entries function

unfoldable pub alloc_kind : String → Option MemOpKind
unfolding find
alloc_kind function = find alloc_map function

unfoldable pub is_alloc : String → Bool
unfolding alloc_kind
is_alloc function = has_value (alloc_kind function)

unfoldable pub is_new_like : String → Bool
unfolding alloc_kind has_flag
is_new_like function = elim (alloc_kind function) [
  | none ↦ false
  | some kind ↦ has_flag kind new_cpp_like
]

unfoldable pub is_cuda_like : String → Bool
unfolding alloc_kind has_flag
is_cuda_like function = elim (alloc_kind function) [
  | none ↦ false
  | some kind ↦ has_flag kind cuda_malloc_like
]

unfoldable pub is_fortran_like : String → Bool
unfolding alloc_kind has_flag
is_fortran_like function = elim (alloc_kind function) [
  | none ↦ false
  | some kind ↦ has_flag kind fortran_malloc_like
]

unfoldable pub is_mpi_like : String → Bool
unfolding alloc_kind has_flag
is_mpi_like function = elim (alloc_kind function) [
  | none ↦ false
  | some kind ↦ has_flag kind mpi_malloc_like
]

-- How many of the four classes a function belongs to
unfoldable pub count_classes : String → ℕ
unfolding is_new_like is_cuda_like is_fortran_like is_mpi_like
count_classes function =
    count_if (λ b. b)
      (is_new_like function
        ∷ is_cuda_like function
        ∷ is_fortran_like function
        ∷ is_mpi_like function
        ∷ [])

one_class :
    (kind : MemOpKind)
    → count_if
        (has_flag kind)
        (new_cpp_like ∷ cuda_malloc_like ∷ fortran_malloc_like ∷ mpi_malloc_like ∷ [])
      ≤ 1
unfolding has_flag flag_word
one_class new_like = omega arith
one_class malloc_like = omega arith
one_class aligned_alloc_like = omega arith
one_class calloc_like = omega arith
one_class realloc_like = omega arith
one_class new_cpp_like = omega arith
one_class cuda_malloc_like = omega arith
one_class fortran_malloc_like = omega arith
one_class mpi_malloc_like = omega arith

-- A function is in one of the four classes (new, CUDA, Fortran, MPI) at most, and a function that is
-- no allocation function is in none.
pub count_classes_lem :
    (function : String)
    → (count_classes function ≤ 1) × (is_alloc function ≡ false → count_classes function ≡ 0)
unfolding count_classes is_alloc is_new_like is_cuda_like is_fortran_like is_mpi_like
count_classes_lem function = elim (Option-cases (alloc_kind function)) [
  | inl e ↦
      rw (e, count_classes, is_new_like, is_cuda_like, is_fortran_like, is_mpi_like, is_alloc)
        (omega arith, λ h. refl)
  | inr (kind, e) ↦
      rw (e, count_classes, is_new_like, is_cuda_like, is_fortran_like, is_mpi_like, is_alloc)
        (one_class kind, λ h. cc)
]
