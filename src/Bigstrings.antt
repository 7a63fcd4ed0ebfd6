-- ===== src/Bigstrings.antt =====
-- base_bigstring, bigstringaf, bin_prot/src/blit_stubs.c and core_kernel/src/bigstring_stubs.c: who
-- owns the memory of bigstrings, and what is done with its bytes.
pub mod Ownership
pub mod Bytes
mod Tests
