-- ===== src/Spawn.antt =====
-- spawn/src/spawn_stubs.c: a process that runs another program. What the parts are is said in each.
pub mod Table
pub mod Failure
pub mod Child
pub mod Parent
pub mod Strings
mod Kernels
mod Tests
