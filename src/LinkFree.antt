-- ===== src/LinkFree.antt =====
-- The link-free sets of LinkFree/.
pub mod Utilities
pub mod Memory
pub mod List
pub mod Recovery
pub mod Shape
pub mod Commands
pub mod Upkeep
pub mod Find
pub mod Cells
pub mod Invariant
pub mod Lookup
pub mod Insert
pub mod Help
pub mod Remove
pub mod Contains
pub mod Construct
pub mod Rebuild
pub mod History
pub mod Transitions
pub mod HashTable
pub mod SkipList
pub mod Tests
