-- ===== src/Index.antt =====
-- p4/index.c: a hash table from keys to offsets, by open addressing with linear probing.
pub mod Hash
pub mod Table
pub mod Search
pub mod Store
pub mod Growth
pub mod Room
pub mod Reference
mod Tests
