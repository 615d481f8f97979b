-- ===== src/LinkFree/Find.antt =====
-- `find` of LinkFree/LinkFreeList.h, run by one thread: what it unlinks and where it stops.
pub mod Rounds
pub mod Quiet
pub mod Step
pub mod Walk
