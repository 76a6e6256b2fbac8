-- ===== src/DimetaParse.antt =====
-- lib/type/DimetaParse.cpp: the handler of the parser's events, which builds the type.
pub mod Encoding
pub mod Qualify
pub mod Handler
pub mod Stack
pub mod Depth
pub mod Builder
pub mod Forest
pub mod Steps
pub mod Refines
pub mod Writable
pub mod Named
