-- ===== src/NatStubs.antt =====
-- num/src/nat_stubs.c, the primitives of the OCaml module Nat over the numbers of bng.c.
pub mod Heap
pub mod Arith
pub mod Access
pub mod Words
pub mod Marshal
pub mod Hash
mod Tests
