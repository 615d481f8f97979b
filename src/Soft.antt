-- ===== src/Soft.antt =====
-- The SOFT sets: volatile lists of nodes, each with a persistent node in NVRAM.
pub mod Utilities
pub mod Memory
pub mod PersistentNode
pub mod Commands
pub mod Shape
pub mod States
pub mod Find
pub mod Cells
pub mod Invariant
pub mod Insert
pub mod Remove
pub mod Contains
pub mod Rebuild
pub mod History
pub mod List
pub mod Recovery
pub mod Transitions
pub mod HashTable
pub mod SkipList
mod Tests
