-- ===== src/Journal.antt =====
-- src/fffs_index_log.c: the circular journal of index records, with its append, the rotation to the
-- next index sector and the compaction of the oldest one. The cache of the journal is the hash
-- table of HashIndex.
pub mod Record
pub mod Rotate
pub mod Compact
pub mod Append
pub mod Ring
pub mod Copy
mod Invariant
pub mod RoundTrip
pub mod Operations
pub mod Replay
pub mod Replayed
mod Replaying
mod ReplayLoops
pub mod ReplayRing
pub mod Follows
pub mod Closed
mod ClosedRecords
pub mod ClosedReplay
