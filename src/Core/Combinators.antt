-- ===== src/Core/Combinators.antt =====
-- tflo-core/src/combinators: adapters over finite streams. An iterator is the list of the items that it
-- has left.
pub mod Partition
pub mod RateLimit
pub mod Join
pub mod WindowJoin
pub mod Merge
pub mod Group
pub mod KeepLast
pub mod Batch
pub mod Dedupe
