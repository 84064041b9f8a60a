-- ===== src/Kv.antt =====
-- p4/kvraw.c and p4/kvdb.c: keys and values as records in the log, in chains by the hash of the key.
pub mod Meta
pub mod Raw
pub mod Records
pub mod Lookup
pub mod Db
pub mod Restore
pub mod Keys
pub mod Chain
pub mod State
pub mod Contract
pub mod Change
pub mod Map
pub mod Update
pub mod Opening
mod Tests
