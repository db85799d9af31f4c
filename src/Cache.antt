-- ===== src/Cache.antt =====
-- `source/dvm_cache.c`: the cache of pages in front of a disc.
pub mod Types
pub mod Search
pub mod Flush
pub mod Order
pub mod Invariant
pub mod Pages
pub mod View
pub mod Access
pub mod Moved
pub mod FlushFrame
pub mod FlushEntry
pub mod Hit
pub mod Swap
pub mod Load
pub mod Replace
pub mod Victim
pub mod ReadWrite
pub mod HitStep
pub mod Gap
pub mod Direct
pub mod LoopRule
pub mod Locate
pub mod DirectLoop
pub mod MissStep
pub mod Settled
pub mod CachedLoop
pub mod Transfer
pub mod Session
pub mod Refined
pub mod Paged
pub mod Ends
pub mod FlushAll
pub mod Create
pub mod Created
mod SessionTests
mod Tests
