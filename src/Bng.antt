-- ===== src/Bng.antt =====
-- num/src/bng.c
pub mod Digit
pub mod Number
pub mod Add
pub mod Compare
pub mod Shift
pub mod Mult
pub mod DivRem
mod Tests
