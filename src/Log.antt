-- ===== src/Log.antt =====
-- p4/logfs.c: bytes appended to a log on a device, through a write buffer and a read cache.
pub mod Buffer
pub mod Window
pub mod Append
pub mod Heads
pub mod Block
pub mod Dequeue
pub mod Device
pub mod Cache
pub mod Store
pub mod Coherent
pub mod Flush
pub mod Round
pub mod Writes
pub mod Reads
pub mod Contract
pub mod Opening
mod Tests
