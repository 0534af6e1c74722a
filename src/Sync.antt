-- ===== src/Sync.antt =====
-- apps/krymux-sync/src/sync: file synchronization over a stream of the multiplexer.
pub mod Disk
pub mod Float
pub mod Memory
pub mod Plan
pub mod Protocol
pub mod Collect
pub mod Scanner
pub mod Server
pub mod Tombstones
pub mod Transfer
