-- ===== src/DimetaParse/Encoding.antt =====
-- FundamentalType::Encoding of lib/type/DimetaData.h: the values that lib/type/DimetaParse.cpp names
use llvm_dimeta.Base.{ℕ}

abbrev pub unknown : ℕ
unknown = 0

abbrev pub void : ℕ
void = 128

abbrev pub vtable_ptr : ℕ
vtable_ptr = 256

abbrev pub null_ptr : ℕ
null_ptr = 512

abbrev pub function_ptr : ℕ
function_ptr = 4096

abbrev pub string : ℕ
string = 8192
