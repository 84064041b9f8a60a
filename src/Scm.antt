-- ===== src/Scm.antt =====
-- p3/scm.c: a heap in a file that is mapped into memory.
pub mod Heap
pub mod Blocks
pub mod Fit
pub mod State
pub mod Push
pub mod Contract
mod Tests
