-- ===== src/Avl.antt =====
-- p3/avl.c: a balanced search tree of counted words, with its nodes and words in a persistent heap.
pub mod Strcmp
pub mod Tree
pub mod Words
pub mod Order
pub mod Balance
pub mod Growth
pub mod Remove
pub mod Handle
pub mod Settle
pub mod Shrink
pub mod Erase
pub mod Vacate
pub mod Removal
pub mod Contract
pub mod Undo
mod Tests
