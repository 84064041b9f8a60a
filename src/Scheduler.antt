-- ===== src/Scheduler.antt =====
-- p2/scheduler.c: threads that share one processor by taking turns.
pub mod Threads
pub mod Choice
pub mod Turns
mod Tests
